-- ===== src/Budget/Ops.antt =====
-- internal/memoryagent/budget.go: the caps, and the transactions that reserve, settle and release.
-- A transaction that fails rolls back: an error comes with no new file.
use mnemon.Prelude.{
  ℕ, Bool, true, false, ◌&&◌, ◌||◌, not, String, Option, none, some, List, [], ◌∷◌, str_eq, leb,
  if◌then◌else◌,
}
use mnemon.Prelude.Int.{ℤ, pos, negsuc, ◌+ℤ◌, ◌-ℤ◌, leb_ℤ, ltb_ℤ, max_ℤ, min_ℤ, scale}
use mnemon.Prelude.Dict.{lookup, insert}
use mnemon.Budget.State.{
  Amount, nan, pos_inf, neg_inf, fin, Usage, BudgetError, no_budget_file, unknown_kind,
  invalid_amount, cap_reached, background_reserve, invalid_metering, no_open_attempt, duplicate_id,
  cap_kind, cap_amount, Result, ok, err, Account, Attempt, Db, Budget, default_caps, reservations,
  unlimited_in_file, is_open,
}

abbrev pub is_some {ℓ} : {A : Type ℓ} → Option A → Bool
is_some none = false
is_some (some a) = true

-- Whether checkCaps takes an amount.
unfoldable pub cap_valid : Bool → Amount → Bool
cap_valid unlimited nan = false
cap_valid unlimited pos_inf = unlimited
cap_valid unlimited neg_inf = false
cap_valid unlimited (fin c) = leb_ℤ (pos 0) c

-- checkCaps; `none` when it refuses nothing.
unfoldable pub check_caps : Bool → List (String × Amount) → Option BudgetError
unfolding cap_valid
check_caps unlimited [] = none
check_caps unlimited ((kind, cap) ∷ rest) =
    if not (is_some (lookup kind default_caps))
    then some cap_kind
    else if not (cap_valid unlimited cap)
    then some cap_amount
    else check_caps unlimited rest

-- maps.Copy(next, caps).
unfoldable pub copy_caps : List (String × Amount) → List (String × Amount) → List (String × Amount)
copy_caps next [] = next
copy_caps next ((kind, cap) ∷ rest) = copy_caps (insert kind cap next) rest

-- The caps that OpenBudgetWithCaps resolves.
unfoldable pub open_caps : List (String × Amount) → Result (List (String × Amount))
unfolding check_caps copy_caps
open_caps caps = elim (check_caps false caps) [
  | some e ↦ err e
  | none ↦ ok (copy_caps default_caps caps)
]

-- SetCaps.
unfoldable pub set_caps : List (String × Amount) → Budget → Result Budget
unfolding check_caps copy_caps
set_caps caps b = elim (check_caps true caps) [
  | some e ↦ err e
  | none ↦ ok (record b { caps = copy_caps b.caps caps })
]

-- An amount that a call may pass to reserve.
abbrev pub amount_of : Amount → Option ℤ
amount_of nan = none
amount_of pos_inf = none
amount_of neg_inf = none
amount_of (fin (pos n)) = some (pos n)
amount_of (fin (negsuc n)) = none

-- The flat reservation of a kind; a kind that is missing reads 0.
abbrev pub flat_reservation : String → ℤ
flat_reservation kind = elim (lookup kind reservations) [ none ↦ pos 0 | some r ↦ r ]

-- The cap that the file records: an unlimited one is finite there. A cap that is kept is no other.
abbrev pub cap_in_file : Amount → ℤ
cap_in_file (fin c) = c
cap_in_file pos_inf = unlimited_in_file
cap_in_file nan = pos 0
cap_in_file neg_inf = pos 0

-- INSERT INTO accounts … ON CONFLICT(kind) DO UPDATE SET cap.
unfoldable pub upsert_cap : ℤ → Option Account → Account
upsert_cap cap none = record { cap = cap; spent = pos 0; held = pos 0 }
upsert_cap cap (some a) = record a { cap = cap }

-- spent + held + reservation <= cap * share, the share in tenths. The code adds float64 values: where
-- their sum rounds up past the share of the cap, it refuses a reservation that fits here.
unfoldable pub fits : ℤ → ℕ → Account → Bool
fits reservation share a = leb_ℤ (scale 10 (a.spent +ℤ a.held +ℤ reservation)) (scale share a.cap)

-- refusal.
unfoldable pub refusal : ℤ → ℕ → Account → BudgetError
unfolding fits
refusal reservation share a =
    if leb 10 share
    then cap_reached
    else if fits reservation 10 a
    then background_reserve
    else cap_reached

unfoldable pub has_id : String → List Attempt → Bool
has_id id [] = false
has_id id (a ∷ rest) = str_eq a.id id || has_id id rest

-- The estimate that an attempt records: none without input tokens.
abbrev pub estimate_cost : Usage → ℤ → Option ℤ
estimate_cost u reservation =
    if leb_ℤ (pos 1) u.input_tokens then some (min_ℤ (u.usd +ℤ u.cny) reservation) else none

abbrev pub estimate_tokens : Usage → Option ℤ
estimate_tokens u = if leb_ℤ (pos 1) u.input_tokens then some u.input_tokens else none

unfoldable pub new_attempt : String → String → String → ℤ → Usage → Attempt
new_attempt id kind hash reservation estimate = record {
  id = id;
  kind = kind;
  request_hash = hash;
  reserved = reservation;
  actual = none;
  input_tokens = none;
  output_tokens = none;
  estimate = estimate_cost estimate reservation;
  estimate_tokens = estimate_tokens estimate;
}

-- The transaction of reserveWithin; `id` is the identifier that is drawn for the attempt. `held` grows by
-- exactly what is reserved.
unfoldable pub reserve_tx : String → String → ℤ → ℕ → Usage → ℤ → String → Db → Result Db
unfolding fits refusal has_id new_attempt upsert_cap
reserve_tx kind hash reservation share estimate cap id db =
    let a = upsert_cap cap (lookup kind db.accounts) in
    if not (fits reservation share a)
    then err (refusal reservation share a)
    else if has_id id db.attempts
    then err duplicate_id
    else ok (record {
      accounts = insert kind (record a { held = a.held +ℤ reservation }) db.accounts;
      attempts = new_attempt id kind hash reservation estimate ∷ db.attempts;
    })

-- reserveWithin after its cap is known.
unfoldable pub reserve_paid :
    Option Amount → String → String → Amount → ℕ → Usage → String → Db → Result Db
unfolding reserve_tx
reserve_paid none kind hash amount share estimate id db = err unknown_kind
reserve_paid (some cap) kind hash amount share estimate id db = elim (amount_of amount) [
  | none ↦ err invalid_amount
  | some a ↦
      reserve_tx kind hash (max_ℤ (flat_reservation kind) a) share estimate (cap_in_file cap) id db
]

-- reserveWithin: the budget, when there is one, and the attempt's identifier, "" for a local model.
unfoldable pub reserve_within :
    String → String → Amount → ℕ → Usage → String → Option Budget → Result (Option Budget × String)
unfolding reserve_paid
reserve_within kind hash amount share estimate id none =
    if str_eq kind "local" then ok (none, "") else err no_budget_file
reserve_within kind hash amount share estimate id (some b) =
    if str_eq kind "local"
    then ok (some b, "")
    else elim (reserve_paid (lookup kind b.caps) kind hash amount share estimate id b.db) [
      | err e ↦ err e
      | ok db ↦ ok (some (record b { db = db }), id)
    ]

-- SELECT … FROM attempts WHERE id=? AND actual IS NULL.
unfoldable pub find_open : String → List Attempt → Option Attempt
find_open id [] = none
find_open id (a ∷ rest) = if str_eq a.id id && is_open a then some a else find_open id rest

-- UPDATE attempts SET actual=?,input_tokens=?,output_tokens=? WHERE id=? AND actual IS NULL.
unfoldable pub mark : String → ℤ → ℤ → ℤ → List Attempt → List Attempt
mark id cost input output [] = []
mark id cost input output (a ∷ rest) =
    (if str_eq a.id id && is_open a
      then record a { actual = some cost; input_tokens = some input; output_tokens = some output }
      else a)
    ∷ mark id cost input output rest

-- UPDATE accounts SET held=held-?,spent=spent+? WHERE kind=?, without the residue that float64 values
-- may leave in `held`.
unfoldable pub move_held : String → ℤ → ℤ → List (String × Account) → List (String × Account)
move_held kind held cost accounts = elim (lookup kind accounts) [
  | none ↦ accounts
  | some a ↦ insert kind (record a { held = a.held -ℤ held; spent = a.spent +ℤ cost }) accounts
]

-- The metering that settle refuses for a reservation of the kind.
unfoldable pub metering_invalid : String → ℤ → Usage → Bool
metering_invalid kind held u =
    let cost = u.usd +ℤ u.cny in
    ltb_ℤ cost (pos 0)
    || (ltb_ℤ held cost && not (str_eq kind "openai"))
    || ltb_ℤ u.input_tokens (pos 1)
    || ltb_ℤ u.output_tokens (pos 0)

-- settle, on the open attempt.
unfoldable pub settle_open : Option Attempt → String → Usage → Db → Result Db
unfolding metering_invalid mark move_held
settle_open none id u db = err no_open_attempt
settle_open (some a) id u db =
    let cost = u.usd +ℤ u.cny in
    if metering_invalid a.kind a.reserved u
    then err invalid_metering
    else ok (record {
      accounts = move_held a.kind a.reserved cost db.accounts;
      attempts = mark id cost u.input_tokens u.output_tokens db.attempts;
    })

unfoldable pub settle : String → Usage → Db → Result Db
unfolding settle_open find_open
settle id u db = if str_eq id "" then ok db else settle_open (find_open id db.attempts) id u db

-- release, on the open attempt.
unfoldable pub release_open : Option Attempt → String → Db → Result Db
unfolding mark move_held
release_open none id db = err no_open_attempt
release_open (some a) id db = ok (record {
  accounts = move_held a.kind a.reserved (pos 0) db.accounts;
  attempts = mark id (pos 0) (pos 0) (pos 0) db.attempts;
})

unfoldable pub release : String → Db → Result Db
unfolding release_open find_open
release id db = if str_eq id "" then ok db else release_open (find_open id db.attempts) id db
