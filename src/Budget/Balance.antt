-- ===== src/Budget/Balance.antt =====
-- The accounts of a budget file add up to its attempts, whatever calls reserve, settle and release.
use mnemon.Prelude.{
  ◌≤◌, ◌≡◌, sym, ap, subst, ◌∙◌, Bool, true, String, none, some, List, str_eq, eq_iff,
  if◌then◌else◌, arith, Option-cases, Bool-cases, inl, inr,
}
use mnemon.Prelude.Int.{ℤ, pos, ◌+ℤ◌, ◌-ℤ◌, int_laws, parts_of_eq}
use mnemon.Prelude.Dict.{lookup, lookup-insert}
use mnemon.Budget.State.{Usage, ok, Account, Attempt, Db, held_of, spent_of}
use mnemon.Budget.Ops.{find_open, mark, move_held, settle, release}
use mnemon.Budget.Resolve.{Resolved, local, ended, settle-Resolved, release-Resolved}
use mnemon.Budget.Sums.{open_sum, spent_sum, kind_count, id_count, find_open-Marked}

-- The accounts hold what the open attempts reserve and have spent what the settled ones cost; every
-- attempt has an account, and no two have one identifier.
pub record Balanced (db : Db) : Type 0 where
  pub held : (k : String) → held_of (lookup k db.accounts) ≡ open_sum k db.attempts
  pub spent : (k : String) → spent_of (lookup k db.accounts) ≡ spent_sum k db.attempts
  pub covered : (k : String) → lookup k db.accounts ≡ none → kind_count k db.attempts ≡ 0
  pub unique : (id : String) → id_count id db.attempts ≤ 1

-- An account that exists takes what a settlement moves.
module _ (kind : String) (held cost : ℤ) (accounts : List (String × Account)) (x : Account)
    (found : lookup kind accounts ≡ some x) where
  lookup-move_held :
      (k : String)
      → lookup k (move_held kind held cost accounts) ≡ (
          if str_eq kind k
          then some (record x { held = x.held -ℤ held; spent = x.spent +ℤ cost })
          else lookup k accounts)
  unfolding move_held
  lookup-move_held k = rw (found, move_held) (lookup-insert kind k _ accounts)

  moved-account : (k : String) → str_eq kind k ≡ true → lookup k accounts ≡ some x
  moved-account k e = sym (ap (λ (z : String). lookup z accounts) ((eq_iff kind k).0 e)) ∙ found

  pub held-move_held :
      (k : String)
      → held_of (lookup k (move_held kind held cost accounts))
          +ℤ (if str_eq kind k then held else pos 0)
        ≡ held_of (lookup k accounts)
  held-move_held k = rw (lookup-move_held k) (elim (Bool-cases (str_eq kind k)) [
    | inl e ↦ rw (e, moved-account k e) (omega int_laws)
    | inr e ↦ rw e (omega int_laws)
  ])

  pub spent-move_held :
      (k : String)
      → spent_of (lookup k (move_held kind held cost accounts))
        ≡ spent_of (lookup k accounts) +ℤ (if str_eq kind k then cost else pos 0)
  spent-move_held k = rw (lookup-move_held k) (elim (Bool-cases (str_eq kind k)) [
    | inl e ↦ rw (e, moved-account k e) (omega int_laws)
    | inr e ↦ rw e (omega int_laws)
  ])

  covered-move_held :
      (k : String) → lookup k (move_held kind held cost accounts) ≡ none → lookup k accounts ≡ none
  covered-move_held k h = ground (arith, lookup-move_held k)

-- Settling or releasing the open attempt `a` keeps the accounts balanced.
resolve-Balanced :
    (db : Db) (a : Attempt) (id : String) (cost input output : ℤ)
    → Balanced db
    → find_open id db.attempts ≡ some a
    → Balanced (record {
      accounts = move_held a.kind a.reserved cost db.accounts;
      attempts = mark id cost input output db.attempts;
    })
resolve-Balanced db a id cost input output b e =
    let m = find_open-Marked id cost input output db.attempts a (b.unique id) e in
    elim (Option-cases (lookup a.kind db.accounts)) [
      | inl missing ↦ absurd (omega (arith, b.covered a.kind missing, m.present))
      | inr (x, found) ↦ record {
        held = λ k. omega (
          int_laws,
          parts_of_eq (held-move_held a.kind a.reserved cost db.accounts x found k),
          parts_of_eq (b.held k),
          parts_of_eq (m.opens k),
        );
        spent = λ k. omega (
          int_laws,
          parts_of_eq (spent-move_held a.kind a.reserved cost db.accounts x found k),
          parts_of_eq (b.spent k),
          parts_of_eq (m.costs k),
        );
        covered = λ k h. omega (
          arith,
          m.kinds k,
          b.covered k (covered-move_held a.kind a.reserved cost db.accounts x found k h),
        );
        unique = λ k. omega (arith, m.ids k, b.unique k);
      }
    ]

Resolved-Balanced :
    {test : Attempt → Bool} {id : String} {cost input output : ℤ} {db db' : Db}
    → Resolved test id cost input output db db'
    → Balanced db
    → Balanced db'
Resolved-Balanced (local empty same) b = subst Balanced same b
Resolved-Balanced {id = id} {cost = cost} {input = input} {output = output} {db = db}
      (ended a found taken file) b =
    subst Balanced file (resolve-Balanced db a id cost input output b found)

-- A settlement that succeeds keeps the accounts balanced.
pub settle-Balanced :
    (id : String) (u : Usage) (db db' : Db) → settle id u db ≡ ok db' → Balanced db → Balanced db'
settle-Balanced id u db db' e b = Resolved-Balanced (settle-Resolved id u db db' e) b

-- A release that succeeds keeps the accounts balanced.
pub release-Balanced :
    (id : String) (db db' : Db) → release id db ≡ ok db' → Balanced db → Balanced db'
release-Balanced id db db' e b = Resolved-Balanced (release-Resolved id db db' e) b
