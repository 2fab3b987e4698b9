-- ===== src/Budget/Runs.antt =====
-- internal/memoryagent/budget.go: the files that calls under the caps of a start can reach, and what
-- their accounts use at most.
use mnemon.Prelude.{
  mul_le, ℕ, ◌≤◌, ◌≡◌, ◌∙◌, refl, sym, ap, subst, true, false, String, Option, none, some, List, [],
  ◌∷◌, str_eq, eq_iff, arith, Option-cases, Bool-cases, inl, inr,
}
use mnemon.Prelude.Int.{ℤ, pos, negsuc, ◌≤ℤ◌, leb_ℤ→le, max_ℤ, scale, int_laws}
use mnemon.Prelude.Dict.{lookup, insert, lookup-insert}
use mnemon.Budget.State.{
  Amount, fin, nan, pos_inf, neg_inf, Usage, Result, ok, err, Db, Budget, default_caps,
}
use mnemon.Budget.Ops.{
  cap_valid, check_caps, copy_caps, open_caps, amount_of, flat_reservation, cap_in_file,
  new_attempt, reserve_tx, reserve_paid, reserve_within, settle, release,
}
use mnemon.Budget.Reserve.{reserve_tx-Admitted}
use mnemon.Budget.CapSafety.{
  used, Floors, settle-used, release-used, settle-Floors, release-Floors, reserve-used,
}

-- A paid reservation that succeeded.
pub record Paid (caps : List (String × Amount)) (kind hash : String) (share : ℕ) (estimate : Usage)
    (id : String) (db db' : Db) : Type 0 where
  pub cap : Amount
  pub reservation : ℤ
  pub capped : lookup kind caps ≡ some cap
  pub floor : pos 0 ≤ℤ reservation
  pub done : reserve_tx kind hash reservation share estimate (cap_in_file cap) id db ≡ ok db'

-- A reservation that succeeded is a local model's, and then the file is as it was, or a paid one.
pub data Made (caps : List (String × Amount)) (kind hash : String) (share : ℕ) (estimate : Usage)
    (id : String) (db db' : Db) : Type 0 where
  free : db ≡ db' → Made caps kind hash share estimate id db db'
  paid : Paid caps kind hash share estimate id db db' → Made caps kind hash share estimate id db db'

max-floor : (f : ℤ) (n : ℕ) → pos 0 ≤ℤ max_ℤ f (pos n)
max-floor f n = ground arith

amount-floor :
    (kind : String) (amount : Amount) (a : ℤ)
    → amount_of amount ≡ some a
    → pos 0 ≤ℤ max_ℤ (flat_reservation kind) a
amount-floor kind (fin (pos n)) a e =
    let same : pos n ≡ a = ground arith in
    subst (λ (z : ℤ). pos 0 ≤ℤ max_ℤ (flat_reservation kind) z) same
      (max-floor (flat_reservation kind) n)
amount-floor kind (fin (negsuc n)) a e = absurd (ground arith)
amount-floor kind nan a e = absurd (ground arith)
amount-floor kind pos_inf a e = absurd (ground arith)
amount-floor kind neg_inf a e = absurd (ground arith)

reserve_paid-Paid :
    (caps : List (String × Amount)) (kind hash : String) (amount : Amount) (share : ℕ)
    (estimate : Usage) (id : String) (db db' : Db)
    → reserve_paid (lookup kind caps) kind hash amount share estimate id db ≡ ok db'
    → Paid caps kind hash share estimate id db db'
unfolding reserve_paid
reserve_paid-Paid caps kind hash amount share estimate id db db' e =
    elim (Option-cases (lookup kind caps)) [
      | inl unknown ↦ absurd (ground (arith, unknown))
      | inr (cap, known) ↦ elim (Option-cases (amount_of amount)) [
        | inl invalid ↦ absurd (ground (arith, known, invalid))
        | inr (a, valid) ↦ record {
          cap = cap;
          reservation = max_ℤ (flat_reservation kind) a;
          capped = known;
          floor = amount-floor kind amount a valid;
          done = ground (arith, known, valid);
        }
      ]
    ]

-- The budget of a file under the caps.
abbrev pub budget : List (String × Amount) → Db → Option Budget
budget caps db = some (record { db = db; caps = caps })

reserve_within-Made :
    (caps : List (String × Amount)) (kind hash : String) (amount : Amount) (share : ℕ)
    (estimate : Usage) (id i : String) (db db' : Db)
    → reserve_within kind hash amount share estimate id (budget caps db) ≡ ok (budget caps db', i)
    → Made caps kind hash share estimate id db db'
unfolding reserve_within
reserve_within-Made caps kind hash amount share estimate id i db db' e =
    elim (Bool-cases (str_eq kind "local")) [
      | inl here ↦ free (ground (arith, here))
      | inr away ↦
          elim (reserve_paid (lookup kind caps) kind hash amount share estimate id db)
              as (λ (r : Result Db).
                reserve_paid (lookup kind caps) kind hash amount share estimate id db ≡ r
                → Made caps kind hash share estimate id db db') [
                  | err x ↦ λ q. absurd (ground (arith, away, q))
                  | ok x ↦ λ q. paid (
                      reserve_paid-Paid caps kind hash amount share estimate id db db'
                        (ground (arith, away, q)))
                ]
            refl
    ]

-- The files that reservations, settlements and releases that succeed reach from a new one, under
-- caps that do not change and shares of at most ten tenths.
pub data Run (caps : List (String × Amount)) : Db → Type 0 where
  fresh : Run caps (record { accounts = []; attempts = [] })
  reserved :
      {db : Db} (db' : Db) (kind hash : String) (amount : Amount) (share : ℕ) (estimate : Usage)
      (id i : String)
      → Run caps db
      → share ≤ 10
      → reserve_within kind hash amount share estimate id (budget caps db) ≡ ok (budget caps db', i)
      → Run caps db'
  settled :
      {db : Db} (db' : Db) (id : String) (u : Usage)
      → Run caps db
      → settle id u db ≡ ok db'
      → Run caps db'
  released :
      {db : Db} (db' : Db) (id : String) → Run caps db → release id db ≡ ok db' → Run caps db'

-- The cap that a reservation of a kind records.
abbrev pub cap_of : List (String × Amount) → String → ℤ
cap_of caps k = elim (lookup k caps) [ none ↦ pos 0 | some c ↦ cap_in_file c ]

abbrev Capped : List (String × Amount) → Db → Type 0
Capped caps db = Floors db × ((k : String) → str_eq k "openai" ≡ false → used k db ≤ℤ cap_of caps k)

share-le : (u c : ℤ) (share : ℕ) → share ≤ 10 → pos 0 ≤ℤ c → scale 10 u ≤ℤ scale share c → u ≤ℤ c
share-le u (pos n) share h p q = omega (int_laws, q, mul_le share 10 n h)
share-le u (negsuc n) share h p q = absurd (omega arith)

cap_of-some :
    (caps : List (String × Amount)) (kind : String) (cap : Amount)
    → lookup kind caps ≡ some cap
    → cap_of caps kind ≡ cap_in_file cap
cap_of-some caps kind cap h = ground (arith, h)

Paid-Capped :
    {caps : List (String × Amount)} {kind hash : String} {share : ℕ} {estimate : Usage}
    {id : String} {db db' : Db}
    → ((k : String) → pos 0 ≤ℤ cap_of caps k)
    → share ≤ 10
    → Paid caps kind hash share estimate id db db'
    → Capped caps db
    → Capped caps db'
Paid-Capped {caps} {kind} {hash} {share} {estimate} {id} {db} {db'} nonneg bounded p c =
    let a =
      reserve_tx-Admitted kind hash p.reservation share estimate (cap_in_file p.cap) id db db'
        p.done in
    (
      subst Floors (a.file) (unfold new_attempt in (p.floor, c.0)),
      λ k other.
          let u =
            reserve-used kind hash p.reservation share estimate (cap_in_file p.cap) id db db' p.done
              k in
          elim (Bool-cases (str_eq kind k)) [
            | inl e ↦
                let capped : cap_of caps k ≡ cap_in_file p.cap =
                  ap (cap_of caps) (sym ((eq_iff kind k).0 e))
                  ∙ cap_of-some caps kind p.cap p.capped in
                subst (λ (z : ℤ). used k db' ≤ℤ z) (sym capped)
                  (share-le (used k db') (cap_in_file p.cap) share bounded
                    (subst (λ (z : ℤ). pos 0 ≤ℤ z) capped (nonneg k)) (u.0 e))
            | inr e ↦ subst (λ (z : ℤ). z ≤ℤ cap_of caps k) (sym (u.1 e)) (c.1 k other)
          ],
    )

Run-Capped :
    {caps : List (String × Amount)} {db : Db}
    → ((k : String) → pos 0 ≤ℤ cap_of caps k)
    → Run caps db
    → Capped caps db
Run-Capped nonneg fresh = (tt, λ k other. omega (int_laws, nonneg k))
Run-Capped nonneg (reserved db' kind hash amount share estimate id i r bounded e) =
    elim (reserve_within-Made _ kind hash amount share estimate id i _ db' e) [
      | free same ↦ subst (Capped _) same (Run-Capped nonneg r)
      | paid p ↦ Paid-Capped nonneg bounded p (Run-Capped nonneg r)
    ]
Run-Capped nonneg (settled db' id u r e) =
    let c = Run-Capped nonneg r in
    (
      settle-Floors id _ db' u e c.0,
      λ k other. omega (arith, settle-used id _ db' u k e other, c.1 k other),
    )
Run-Capped nonneg (released db' id r e) =
    let c = Run-Capped nonneg r in
    (
      release-Floors id _ db' e c.0,
      λ k other. omega (arith, release-used id _ db' k e c.0, c.1 k other),
    )

cap_valid-floor : (cap : Amount) → cap_valid false cap ≡ true → pos 0 ≤ℤ cap_in_file cap
unfolding cap_valid
cap_valid-floor (fin c) h = leb_ℤ→le (pos 0) c h
cap_valid-floor nan h = absurd (ground arith)
cap_valid-floor pos_inf h = absurd (ground arith)
cap_valid-floor neg_inf h = absurd (ground arith)

cap_of-insert :
    (kind k : String) (cap : Amount) (m : List (String × Amount))
    → cap_valid false cap ≡ true
    → pos 0 ≤ℤ cap_of m k
    → pos 0 ≤ℤ cap_of (insert kind cap m) k
cap_of-insert kind k cap m valid h =
    rw (lookup-insert kind k cap m, cap_of)
      (elim (Bool-cases (str_eq kind k)) [
        | inl e ↦ rw e (cap_valid-floor cap valid)
        | inr e ↦ rw e h
      ])

cap_of-copy :
    (caps m : List (String × Amount)) (k : String)
    → check_caps false caps ≡ none
    → ((j : String) → pos 0 ≤ℤ cap_of m j)
    → pos 0 ≤ℤ cap_of (copy_caps m caps) k
unfolding check_caps copy_caps
cap_of-copy [] m k e h = h k
cap_of-copy ((kind, cap) ∷ rest) m k e h =
    cap_of-copy rest (insert kind cap m) k (ground arith)
      (λ j. cap_of-insert kind j cap m (ground arith) (h j))

cap_of-default : (k : String) → pos 0 ≤ℤ cap_of default_caps k
cap_of-default k = ground arith

open_caps-nonneg :
    (caps resolved : List (String × Amount)) (k : String)
    → open_caps caps ≡ ok resolved
    → pos 0 ≤ℤ cap_of resolved k
unfolding open_caps
open_caps-nonneg caps resolved k e = elim (Option-cases (check_caps false caps)) [
  | inl valid ↦
      let same : copy_caps default_caps caps ≡ resolved = ground (arith, valid) in
      subst (λ (m : List (String × Amount)). pos 0 ≤ℤ cap_of m k) same
        (cap_of-copy caps default_caps k valid cap_of-default)
  | inr (x, refused) ↦ absurd (ground (arith, refused))
]

-- Under the caps that a budget opens with, whatever reservations (of shares up to the whole cap),
-- settlements and releases succeed, in whatever order, what an account other than openai's has spent
-- and holds is never more than its cap.
pub used-le-cap :
    (caps resolved : List (String × Amount)) (db : Db) (k : String)
    → open_caps caps ≡ ok resolved
    → Run resolved db
    → str_eq k "openai" ≡ false
    → used k db ≤ℤ cap_of resolved k
used-le-cap caps resolved db k e r other =
    (Run-Capped (λ j. open_caps-nonneg caps resolved j e) r).1 k other
