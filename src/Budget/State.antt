-- ===== src/Budget/State.antt =====
-- internal/memoryagent/budget.go: the paid accounts and the attempts that a budget file keeps, and
-- the amounts in them. A finite amount is a whole number of units of 10⁻¹² of its currency.
use mnemon.Prelude.{ℕ, ◌-◌, ◌*◌, ◌^◌, Bool, true, false, String, Option, none, some, List, [], ◌∷◌}
use mnemon.Prelude.Int.{ℤ, pos}

abbrev pub unit : ℕ
unit = 10 ^ 12

-- A float64.
pub data Amount : Type 0 where
  nan pos_inf neg_inf : Amount
  fin : ℤ → Amount

-- Usage, as far as the budget reads it.
pub record Usage : Type 0 where
  pub usd : ℤ
  pub cny : ℤ
  pub input_tokens : ℤ
  pub output_tokens : ℤ

pub data BudgetError : Type 0 where
  no_budget_file unknown_kind invalid_amount cap_reached background_reserve : BudgetError
  invalid_metering no_open_attempt duplicate_id cap_kind cap_amount : BudgetError

pub data Result {ℓ} (A : Type ℓ) : Type ℓ where
  ok : A → Result A
  err : BudgetError → Result A

-- A row of `accounts`.
pub record Account : Type 0 where
  pub cap : ℤ
  pub spent : ℤ
  pub held : ℤ

-- A row of `attempts`; a column that is NULL is `none`.
pub record Attempt : Type 0 where
  pub id : String
  pub kind : String
  pub request_hash : String
  pub reserved : ℤ
  pub actual : Option ℤ
  pub input_tokens : Option ℤ
  pub output_tokens : Option ℤ
  pub estimate : Option ℤ
  pub estimate_tokens : Option ℤ

pub record Db : Type 0 where
  pub accounts : List (String × Account)
  pub attempts : List Attempt

pub record Budget : Type 0 where
  pub db : Db
  pub caps : List (String × Amount)

-- defaultCaps and reservations.
abbrev pub default_caps : List (String × Amount)
default_caps =
    ("jev", fin (pos (10 * unit)))
    ∷ ("deepseek", fin (pos (50 * unit)))
    ∷ ("openai", fin (pos (5 * unit)))
    ∷ []

abbrev pub reservations : List (String × ℤ)
reservations =
    ("jev", pos (10 ^ 10)) ∷ ("deepseek", pos (25 * 10 ^ 10)) ∷ ("openai", pos (10 ^ 10)) ∷ []

-- unlimitedInFile, the largest float64.
abbrev pub unlimited_in_file : ℤ
unlimited_in_file = pos ((2 ^ 53 - 1) * 2 ^ 971 * unit)

abbrev pub is_open : Attempt → Bool
is_open a = elim a.actual [ none ↦ true | some cost ↦ false ]

-- What an account that no call has reserved on counts as.
abbrev pub held_of : Option Account → ℤ
held_of none = pos 0
held_of (some a) = a.held

abbrev pub spent_of : Option Account → ℤ
spent_of none = pos 0
spent_of (some a) = a.spent
