-- ===== src/Budget/Reserve.antt =====
-- internal/memoryagent/budget.go, reserveWithin: what an admitted reservation does to the file, and
-- which refusal comes when.
use mnemon.Prelude.{
  ℕ, ◌<◌, ◌≡◌, refl, ap, subst, ◌∙◌, Bool, true, false, String, Option, none, some, List, [], ◌∷◌,
  str_eq, eq_iff, if◌then◌else◌, arith, Bool-cases, inl, inr, ◌↔◌,
}
use mnemon.Prelude.Int.{ℤ, pos, ◌+ℤ◌, int_laws, parts_of_eq}
use mnemon.Prelude.Dict.{lookup, insert, lookup-insert}
use mnemon.Budget.State.{
  Usage, background_reserve, ok, err, Account, Attempt, Db, held_of, spent_of,
}
use mnemon.Budget.Ops.{upsert_cap, fits, refusal, has_id, new_attempt, reserve_tx}
use mnemon.Budget.Sums.{open_sum, spent_sum, kind_count, id_count}
use mnemon.Budget.Balance.{Balanced}

-- The file after an admitted reservation.
abbrev pub reserved_db : String → String → ℤ → Usage → ℤ → String → Db → Db
reserved_db kind hash reservation estimate cap id db =
    let a = upsert_cap cap (lookup kind db.accounts) in
    record {
      accounts = insert kind (record a { held = a.held +ℤ reservation }) db.accounts;
      attempts = new_attempt id kind hash reservation estimate ∷ db.attempts;
    }

-- What an admission says.
pub record Admitted (kind hash : String) (reservation : ℤ) (share : ℕ) (estimate : Usage) (cap : ℤ)
    (id : String) (db db' : Db) : Type 0 where
  pub fitted : fits reservation share (upsert_cap cap (lookup kind db.accounts)) ≡ true
  pub new_id : has_id id db.attempts ≡ false
  pub file : reserved_db kind hash reservation estimate cap id db ≡ db'

pub reserve_tx-Admitted :
    (kind hash : String) (reservation : ℤ) (share : ℕ) (estimate : Usage) (cap : ℤ) (id : String)
    (db db' : Db)
    → reserve_tx kind hash reservation share estimate cap id db ≡ ok db'
    → Admitted kind hash reservation share estimate cap id db db'
unfolding reserve_tx
reserve_tx-Admitted kind hash reservation share estimate cap id db db' e =
    let a = upsert_cap cap (lookup kind db.accounts) in
    elim (Bool-cases (fits reservation share a)) [
      | inr no_room ↦ absurd (ground (arith, no_room))
      | inl room ↦ elim (Bool-cases (has_id id db.attempts)) [
        | inl old ↦ absurd (ground (arith, room, old))
        | inr fresh ↦ record { fitted = room; new_id = fresh; file = ground (arith, room, fresh) }
      ]
    ]

id_count-new : (id : String) (l : List Attempt) → has_id id l ≡ false → id_count id l ≡ 0
unfolding has_id
id_count-new id [] h = refl
id_count-new id (a ∷ l) h = ground (arith, id_count-new id l)

-- The sums of a kind that no attempt has.
sums_none :
    (k : String) (l : List Attempt)
    → kind_count k l ≡ 0
    → (open_sum k l ≡ pos 0) × (spent_sum k l ≡ pos 0)
sums_none k [] h = (refl, refl)
sums_none k (a ∷ l) h =
    let other : str_eq a.kind k ≡ false = ground arith in
    let rest = sums_none k l (ground arith) in
    (
      rw other (omega (int_laws, parts_of_eq rest.0)),
      rw other (omega (int_laws, parts_of_eq rest.1)),
    )

pub held-upsert : (cap : ℤ) (o : Option Account) → (upsert_cap cap o).held ≡ held_of o
unfolding upsert_cap
held-upsert cap none = refl
held-upsert cap (some a) = refl

pub spent-upsert : (cap : ℤ) (o : Option Account) → (upsert_cap cap o).spent ≡ spent_of o
unfolding upsert_cap
spent-upsert cap none = refl
spent-upsert cap (some a) = refl

pub cap-upsert : (cap : ℤ) (o : Option Account) → (upsert_cap cap o).cap ≡ cap
unfolding upsert_cap
cap-upsert cap none = refl
cap-upsert cap (some a) = refl

module _ (kind hash : String) (reservation : ℤ) (estimate : Usage) (cap : ℤ) (id : String)
    (db : Db) where
  abbrev reserved_account : Account
  reserved_account =
      let a = upsert_cap cap (lookup kind db.accounts) in record a { held = a.held +ℤ reservation }

  reserved_lookup :
      (k : String)
      → lookup k (reserved_db kind hash reservation estimate cap id db).accounts
        ≡ (if str_eq kind k then some reserved_account else lookup k db.accounts)
  reserved_lookup k = lookup-insert kind k reserved_account db.accounts

  pub reserved-held :
      (k : String)
      → held_of (lookup k (reserved_db kind hash reservation estimate cap id db).accounts)
        ≡ held_of (lookup k db.accounts) +ℤ (if str_eq kind k then reservation else pos 0)
  reserved-held k = rw (reserved_lookup k) (elim (Bool-cases (str_eq kind k)) [
    | inl e ↦
        let same : lookup kind db.accounts ≡ lookup k db.accounts =
          ap (λ (z : String). lookup z db.accounts) ((eq_iff kind k).0 e) in
        rw e (
          ap (λ (z : ℤ). z +ℤ reservation)
            (held-upsert cap (lookup kind db.accounts) ∙ ap held_of same))
    | inr e ↦ rw e (omega int_laws)
  ])

  pub reserved-spent :
      (k : String)
      → spent_of (lookup k (reserved_db kind hash reservation estimate cap id db).accounts)
        ≡ spent_of (lookup k db.accounts)
  reserved-spent k = rw (reserved_lookup k) (elim (Bool-cases (str_eq kind k)) [
    | inl e ↦
        let same : lookup kind db.accounts ≡ lookup k db.accounts =
          ap (λ (z : String). lookup z db.accounts) ((eq_iff kind k).0 e) in
        rw e (spent-upsert cap (lookup kind db.accounts) ∙ ap spent_of same)
    | inr e ↦ rw e refl
  ])

  abbrev Moved : String → Bool → Type 0
  Moved k z =
      held_of (lookup k (reserved_db kind hash reservation estimate cap id db).accounts)
      ≡ held_of (lookup k db.accounts) +ℤ (if z then reservation else pos 0)

  reserved-Balanced :
      has_id id db.attempts ≡ false
      → Balanced db
      → Balanced (reserved_db kind hash reservation estimate cap id db)
  unfolding new_attempt
  reserved-Balanced fresh b = record {
    held = λ k. elim (Bool-cases (str_eq kind k)) [
      | inl e ↦
          let h = reserved-held k in
          rw e (
            omega
              (int_laws, parts_of_eq (subst (λ (z : Bool). Moved k z) e h), parts_of_eq (b.held k)))
      | inr e ↦
          let h = reserved-held k in
          rw e (
            omega
              (int_laws, parts_of_eq (subst (λ (z : Bool). Moved k z) e h), parts_of_eq (b.held k)))
    ];
    spent = λ k.
        let none_paid : (if str_eq kind k then pos 0 else pos 0) ≡ pos 0 = ground arith in
        rw none_paid (omega (int_laws, parts_of_eq (reserved-spent k), parts_of_eq (b.spent k)));
    covered = λ k h. ground (arith, reserved_lookup k, b.covered k);
    unique = λ k. ground (arith, id_count-new id db.attempts fresh, b.unique k, eq_iff id k);
  }

-- An admitted reservation keeps the accounts balanced.
pub reserve-Balanced :
    (kind hash : String) (reservation : ℤ) (share : ℕ) (estimate : Usage) (cap : ℤ) (id : String)
    (db db' : Db)
    → reserve_tx kind hash reservation share estimate cap id db ≡ ok db'
    → Balanced db
    → Balanced db'
reserve-Balanced kind hash reservation share estimate cap id db db' e b =
    let a = reserve_tx-Admitted kind hash reservation share estimate cap id db db' e in
    subst Balanced a.file (reserved-Balanced kind hash reservation estimate cap id db a.new_id b)

-- A reservation that is refused for money is refused as the background reserve's exactly when the
-- call's share is below the whole cap, the reservation does not fit the share, and it fits the cap.
pub refused_for_reserve :
    (kind hash : String) (reservation : ℤ) (share : ℕ) (estimate : Usage) (cap : ℤ) (id : String)
    (db : Db)
    → let a = upsert_cap cap (lookup kind db.accounts) in
      (reserve_tx kind hash reservation share estimate cap id db ≡ err background_reserve)
      ↔ ((share < 10) × (fits reservation share a ≡ false) × (fits reservation 10 a ≡ true))
unfolding reserve_tx
refused_for_reserve kind hash reservation share estimate cap id db =
    let a = upsert_cap cap (lookup kind db.accounts) in
    (λ e. unfold refusal in ground arith, λ e. unfold refusal in ground arith)
