-- ===== src/Budget/Resolve.antt =====
-- internal/memoryagent/budget.go: settle and release, by what they do when they succeed.
use mnemon.Prelude.{
  ◌≡◌, refl, subst, Bool, true, false, not, String, none, some, List, [], ◌∷◌, str_eq, arith,
  Option-cases, Bool-cases, inl, inr,
}
use mnemon.Prelude.Int.{ℤ, pos, ◌+ℤ◌}
use mnemon.Budget.State.{Usage, ok, err, Attempt, Db, no_open_attempt}
use mnemon.Budget.Ops.{find_open, mark, move_held, settle, release, metering_invalid}

-- The file once the open attempt `a` has ended at a cost.
abbrev pub resolved_db : Attempt → String → ℤ → ℤ → ℤ → Db → Db
resolved_db a id cost input output db = record {
  accounts = move_held a.kind a.reserved cost db.accounts;
  attempts = mark id cost input output db.attempts;
}

-- A call for a local model, which has no attempt, changes nothing; any other ends its open attempt.
pub data Resolved (test : Attempt → Bool) (id : String) (cost input output : ℤ) (db db' : Db)
    : Type 0 where
  local : str_eq id "" ≡ true → db ≡ db' → Resolved test id cost input output db db'
  ended :
      (a : Attempt)
      → find_open id db.attempts ≡ some a
      → test a ≡ true
      → resolved_db a id cost input output db ≡ db'
      → Resolved test id cost input output db db'

-- The metering that settle takes for an attempt.
abbrev pub metered : Usage → Attempt → Bool
metered u a = not (metering_invalid a.kind a.reserved u)

abbrev pub any_attempt : Attempt → Bool
any_attempt a = true

pub settle-Resolved :
    (id : String) (u : Usage) (db db' : Db)
    → settle id u db ≡ ok db'
    → Resolved (metered u) id (u.usd +ℤ u.cny) u.input_tokens u.output_tokens db db'
unfolding settle
settle-Resolved id u db db' e = elim (Bool-cases (str_eq id "")) [
  | inl empty ↦ local empty (ground arith)
  | inr paid ↦ elim (Option-cases (find_open id db.attempts)) [
    | inl missing ↦ absurd (ground (arith, missing))
    | inr (a, found) ↦ ended a found (ground (arith, found)) (ground (arith, found))
  ]
]

pub release-Resolved :
    (id : String) (db db' : Db)
    → release id db ≡ ok db'
    → Resolved any_attempt id (pos 0) (pos 0) (pos 0) db db'
unfolding release
release-Resolved id db db' e = elim (Bool-cases (str_eq id "")) [
  | inl empty ↦ local empty (ground arith)
  | inr paid ↦ elim (Option-cases (find_open id db.attempts)) [
    | inl missing ↦ absurd (ground (arith, missing))
    | inr (a, found) ↦ ended a found (ground arith) (ground (arith, found))
  ]
]

-- The attempt that a mark ended is open no more.
find_open-mark :
    (id : String) (cost input output : ℤ) (l : List Attempt)
    → find_open id (mark id cost input output l) ≡ none
unfolding find_open mark
find_open-mark id cost input output [] = refl
find_open-mark id cost input output (a ∷ l) = ground (arith, find_open-mark id cost input output l)

settle-none :
    (id : String) (v : Usage) (db : Db)
    → str_eq id "" ≡ false
    → find_open id db.attempts ≡ none
    → settle id v db ≡ err no_open_attempt
unfolding settle
settle-none id v db paid gone = ground (arith, gone)

release-none :
    (id : String) (db : Db)
    → str_eq id "" ≡ false
    → find_open id db.attempts ≡ none
    → release id db ≡ err no_open_attempt
unfolding release
release-none id db paid gone = ground (arith, gone)

pub Resolved-open :
    {test : Attempt → Bool} {id : String} {cost input output : ℤ} {db db' : Db}
    → str_eq id "" ≡ false
    → Resolved test id cost input output db db'
    → find_open id db'.attempts ≡ none
Resolved-open paid (local empty same) = absurd (ground arith)
Resolved-open {id = id} {cost = cost} {input = input} {output = output} {db = db} paid
      (ended a found taken file) =
    subst (λ (z : Db). find_open id z.attempts ≡ none) file
      (find_open-mark id cost input output db.attempts)

-- A paid reservation ends once: after a settlement that succeeded, a second settlement and a release of
-- the attempt are refused, whatever their metering.
pub settle-once :
    (id : String) (u v : Usage) (db db' : Db)
    → str_eq id "" ≡ false
    → settle id u db ≡ ok db'
    → (settle id v db' ≡ err no_open_attempt) × (release id db' ≡ err no_open_attempt)
settle-once id u v db db' paid e =
    let gone = Resolved-open paid (settle-Resolved id u db db' e) in
    (settle-none id v db' paid gone, release-none id db' paid gone)
