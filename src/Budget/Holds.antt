-- ===== src/Budget/Holds.antt =====
-- internal/memoryagent/budget.go, SettleHolds: the reservations that ended processes left are settled
-- at what they recorded. The order of kinds, the file's, is an argument.
use mnemon.Prelude.{
  ℕ, ◌+◌, ◌≡◌, refl, Bool, true, false, ◌&&◌, ◌||◌, String, none, some, List, [], ◌∷◌, str_eq,
  eq_iff, if◌then◌else◌, All, if-cases, arith,
}
use mnemon.Prelude.Int.{ℤ, pos, ◌+ℤ◌, ◌≤ℤ◌, max_ℤ, min_ℤ, int_laws, parts_of_eq}
use mnemon.Prelude.Dict.{lookup, insert}
use mnemon.Budget.State.{Account, Attempt, Db, is_open, held_of}
use mnemon.Budget.Ops.{find_open, mark}
use mnemon.Budget.Sums.{open_part, open_sum}

-- HeldSettled.
pub record HeldSettled : Type 0 where
  pub kind : String
  pub holds : ℕ
  pub held : ℤ
  pub settled : ℤ

-- What a hold settles at.
unfoldable pub hold_cost : Attempt → ℤ
hold_cost a = elim a.estimate [ none ↦ a.reserved | some e ↦ min_ℤ (max_ℤ e (pos 0)) a.reserved ]

unfoldable pub hold_tokens : Attempt → ℤ
hold_tokens a = elim a.estimate_tokens [ none ↦ pos 1 | some t ↦ max_ℤ t (pos 1) ]

-- A hold among older ones, behind those whose kind is not after its own.
unfoldable pub insert_hold : (String → String → Bool) → Attempt → List Attempt → List Attempt
insert_hold before a [] = a ∷ []
insert_hold before a (b ∷ l) =
    if before a.kind b.kind then a ∷ b ∷ l else b ∷ insert_hold before a l

-- SELECT … FROM attempts WHERE actual IS NULL ORDER BY kind,rowid; the attempts stand newest first.
unfoldable pub open_holds : (String → String → Bool) → List Attempt → List Attempt
unfolding insert_hold
open_holds before [] = []
open_holds before (a ∷ l) =
    let older = open_holds before l in if is_open a then insert_hold before a older else older

-- UPDATE accounts SET spent=spent+? WHERE kind=?.
unfoldable pub add_spent : String → ℤ → List (String × Account) → List (String × Account)
add_spent kind cost accounts = elim (lookup kind accounts) [
  | none ↦ accounts
  | some a ↦ insert kind (record a { spent = a.spent +ℤ cost }) accounts
]

unfoldable pub settle_hold : Attempt → Db → Db
unfolding add_spent hold_cost hold_tokens
settle_hold h db = record {
  accounts = add_spent h.kind (hold_cost h) db.accounts;
  attempts = mark h.id (hold_cost h) (hold_tokens h) (pos 0) db.attempts;
}

-- The loop over the holds.
unfoldable pub settle_each : List Attempt → Db → Db
unfolding settle_hold
settle_each [] db = db
settle_each (h ∷ rest) db = settle_each rest (settle_hold h db)

-- The reports, a hold before those of the holds after it.
unfoldable pub report_hold : Attempt → List HeldSettled → List HeldSettled
report_hold h [] =
    record { kind = h.kind; holds = 1; held = h.reserved; settled = hold_cost h } ∷ []
report_hold h (r ∷ rest) =
    if str_eq h.kind r.kind
    then record {
      kind = h.kind;
      holds = 1 + r.holds;
      held = h.reserved +ℤ r.held;
      settled = hold_cost h +ℤ r.settled;
    }
      ∷ rest
    else record { kind = h.kind; holds = 1; held = h.reserved; settled = hold_cost h } ∷ r ∷ rest

unfoldable pub report : List Attempt → List HeldSettled
unfolding report_hold
report [] = []
report (h ∷ rest) = report_hold h (report rest)

-- UPDATE accounts SET held=(SELECT COALESCE(SUM(reserved),0) …).
unfoldable pub reset_held : List Attempt → List (String × Account) → List (String × Account)
reset_held attempts [] = []
reset_held attempts ((kind, a) ∷ rest) =
    (kind, record a { held = open_sum kind attempts }) ∷ reset_held attempts rest

-- SettleHolds.
unfoldable pub settle_holds : (String → String → Bool) → Db → Db × List HeldSettled
unfolding open_holds settle_each report reset_held
settle_holds before db =
    let holds = open_holds before db.attempts in
    let done = settle_each holds db in
    (record done { accounts = reset_held done.attempts done.accounts }, report holds)

-- Whether a hold has the identifier.
abbrev holds_id : String → List Attempt → Bool
holds_id id [] = false
holds_id id (h ∷ rest) = str_eq h.id id || holds_id id rest

-- Every attempt that is open is one of the holds.
abbrev Covered : List Attempt → List Attempt → Type 0
Covered holds l = All (λ (a : Attempt). is_open a ≡ true → holds_id a.id holds ≡ true) l

holds_id-insert_hold :
    (before : String → String → Bool) (id : String) (a : Attempt) (l : List Attempt)
    → holds_id id (insert_hold before a l) ≡ (str_eq a.id id || holds_id id l)
unfolding insert_hold
holds_id-insert_hold before id a [] = refl
holds_id-insert_hold before id a (b ∷ l) = ground (arith, holds_id-insert_hold before id a l)

Covered-mono :
    (h k l : List Attempt)
    → ((id : String) → holds_id id h ≡ true → holds_id id k ≡ true)
    → Covered h l
    → Covered k l
Covered-mono h k [] p c = tt
Covered-mono h k (a ∷ l) p c = (λ o. p a.id (c.0 o), Covered-mono h k l p c.1)

Covered-open_holds :
    (before : String → String → Bool) (l : List Attempt) → Covered (open_holds before l) l
unfolding open_holds
Covered-open_holds before [] = tt
Covered-open_holds before (a ∷ l) = (
  λ o.
      ground (arith, o, holds_id-insert_hold before a.id a (open_holds before l), eq_iff a.id a.id),
  Covered-mono (open_holds before l) (open_holds before (a ∷ l)) l
      (λ id h. ground (arith, holds_id-insert_hold before id a (open_holds before l), h))
      (Covered-open_holds before l),
)

Covered-mark :
    (h : Attempt) (holds : List Attempt) (cost input output : ℤ) (l : List Attempt)
    → Covered (h ∷ holds) l
    → Covered holds (mark h.id cost input output l)
unfolding mark
Covered-mark h holds cost input output [] c = tt
Covered-mark h holds cost input output (a ∷ l) c = (
  if-cases (λ (x : Attempt). is_open x ≡ true → holds_id x.id holds ≡ true)
      (str_eq a.id h.id && is_open a) _ _ (λ here o. absurd (ground arith))
      (λ away o. ground (arith, away, o, c.0 o, eq_iff a.id h.id, eq_iff h.id a.id)),
  Covered-mark h holds cost input output l c.1,
)

Covered-settle_each :
    (holds : List Attempt) (db : Db)
    → Covered holds db.attempts
    → Covered [] (settle_each holds db).attempts
unfolding settle_each settle_hold
Covered-settle_each [] db c = c
Covered-settle_each (h ∷ holds) db c =
    Covered-settle_each holds (settle_hold h db)
      (Covered-mark h holds (hold_cost h) (hold_tokens h) (pos 0) db.attempts c)

-- A list without open attempts.
none_open :
    (k : String) (l : List Attempt) → Covered [] l → (find_open k l ≡ none) × (open_sum k l ≡ pos 0)
unfolding find_open
none_open k [] c = (refl, refl)
none_open k (a ∷ l) c =
    let shut : is_open a ≡ false = ground (arith, c.0) in
    let rest = none_open k l c.1 in
    let part : open_part k a ≡ pos 0 = ground (arith, shut) in
    (ground (arith, shut, rest.0), omega (int_laws, parts_of_eq part, parts_of_eq rest.1))

held-reset_held :
    (k : String) (l : List Attempt) (accounts : List (String × Account))
    → Covered [] l
    → held_of (lookup k (reset_held l accounts)) ≡ pos 0
unfolding reset_held
held-reset_held k l [] c = refl
held-reset_held k l ((kind, a) ∷ rest) c =
    ground (arith, (none_open kind l c).1, held-reset_held k l rest c)

-- What a report of a kind says that its holds settled at.
abbrev AtMost : List HeldSettled → Type 0
AtMost l = All (λ (r : HeldSettled). r.settled ≤ℤ r.held) l

hold_cost-le : (h : Attempt) → hold_cost h ≤ℤ h.reserved
unfolding hold_cost
hold_cost-le h = ground arith

report_hold-AtMost : (h : Attempt) (l : List HeldSettled) → AtMost l → AtMost (report_hold h l)
unfolding report_hold
report_hold-AtMost h [] b = (hold_cost-le h, tt)
report_hold-AtMost h (r ∷ rest) b =
    if-cases AtMost (str_eq h.kind r.kind) _ _
      (λ same. (omega (int_laws, hold_cost-le h, b.0), b.1)) (λ other. (hold_cost-le h, b))

report-AtMost : (l : List Attempt) → AtMost (report l)
unfolding report
report-AtMost [] = tt
report-AtMost (h ∷ rest) = report_hold-AtMost h (report rest) (report-AtMost rest)

-- SettleHolds leaves no attempt open and every account holding nothing, whatever the file held and
-- whatever the order of its kinds, and it reports no kind that settled at more than it held.
pub settle_holds-clears :
    (before : String → String → Bool) (db : Db) (k : String)
    → let (done, reports) = settle_holds before db in
      (find_open k done.attempts ≡ none)
      × (held_of (lookup k done.accounts) ≡ pos 0)
      × All (λ (r : HeldSettled). r.settled ≤ℤ r.held) reports
unfolding settle_holds
settle_holds-clears before db k =
    let holds = open_holds before db.attempts in
    let done = settle_each holds db in
    let c = Covered-settle_each holds db (Covered-open_holds before db.attempts) in
    (
      (none_open k done.attempts c).0,
      held-reset_held k done.attempts done.accounts c,
      report-AtMost holds,
    )
