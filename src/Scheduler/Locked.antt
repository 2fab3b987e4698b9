-- ===== src/Scheduler/Locked.antt =====
-- internal/aml/scheduler.go, lines 550-672: retryDelay, and the parts of the operations that run
-- under the scheduler's lock. Of container/heap the code uses the least item (`retries[0]`), Push
-- and Pop: the heap is the list of its items from the least on, by `Less`.
use mnemon.Prelude.{
  ℕ, suc, ◌+◌, ◌-◌, ◌*◌, ◌/◌, ◌^◌, min, String, Bool, false, ◌&&◌, not, Option, none, some, List,
  [], ◌∷◌, ◌++◌, ltb, leb, ◌==◌, if◌then◌else◌, length,
}
use mnemon.Prelude.Int.{pos, leb_ℤ}
use mnemon.Prelude.Store.{Ref, update}
use mnemon.Prelude.Dict.{lookup, delete}
use mnemon.Scheduler.State.{queued, is_idle, SchedUser, Scheduler, retry_base, retry_max}

-- A jitter is a draw of math/rand/v2's Float64: k / 2 ^ 53 for a k below 2 ^ 53.
abbrev pub unit_draws : ℕ
unit_draws = 2 ^ 53

-- n / d to the nearest whole number, a half up.
abbrev pub round_div : ℕ → ℕ → ℕ
round_div n d = (2 * n + d) / (2 * d)

-- retryDelay, with 0.8 + 0.4 j over the denominator 10 * 2 ^ 53.
unfoldable pub retry_delay : ℕ → ℕ → ℕ
retry_delay failures jitter =
    let delay = if leb failures 10 then retry_base * 2 ^ (failures - 1) else retry_max in
    min (round_div (delay * (8 * unit_draws + 4 * jitter)) (10 * unit_draws))
      (round_div (retry_max * (8 * unit_draws + 2 * jitter)) (10 * unit_draws))

unfoldable pub active_locked : Scheduler → ℕ
active_locked s = length s.queue + s.running + length s.retries

unfoldable pub enqueue_locked : Ref → Scheduler → Scheduler
enqueue_locked r s = record s {
  heap = update s.heap r (record (s.heap r) { state = queued });
  queue = s.queue ++ r ∷ [];
}

-- retryHeap.Less.
unfoldable pub less : (Ref → SchedUser) → Ref → Ref → Bool
less heap i j =
    if not ((heap i).retry_at == (heap j).retry_at)
    then ltb (heap i).retry_at (heap j).retry_at
    else ltb (heap i).seq (heap j).seq

unfoldable pub push_retry : (Ref → SchedUser) → Ref → List Ref → List Ref
push_retry heap r [] = r ∷ []
push_retry heap r (x ∷ xs) = if less heap r x then r ∷ x ∷ xs else x ∷ push_retry heap r xs

-- retryDueLocked, a round for each user that backs off.
unfoldable pub retry_due_rounds : List Ref → ℕ → Scheduler → Scheduler
retry_due_rounds [] now s = record s { retries = [] }
retry_due_rounds (r ∷ rest) now s =
    let after = retry_due_rounds rest now (enqueue_locked r (record s { retries = rest })) in
    if leb (s.heap r).retry_at now then after else record s { retries = r ∷ rest }

unfoldable pub retry_due_locked : ℕ → Scheduler → Scheduler
unfolding retry_due_rounds
retry_due_locked now s = retry_due_rounds s.retries now s

unfoldable pub first_unheld : (Ref → SchedUser) → List Ref → Option Ref
first_unheld heap [] = none
first_unheld heap (r ∷ rest) = if (heap r).holds == 0 then some r else first_unheld heap rest

unfoldable pub first_unheld_locked : Scheduler → Option Ref
unfolding first_unheld
first_unheld_locked s = first_unheld s.heap s.queue

-- s.users[u.key] == u.
abbrev pub is_ref : Option Ref → Ref → Bool
is_ref none r = false
is_ref (some x) r = x == r

-- The map after forgetLocked.
unfoldable pub forget_users : Ref → Scheduler → List (String × Ref)
forget_users r s =
    let u = s.heap r in
    if is_idle u.state
      && (u.holds == 0)
      && (u.waiters == 0)
      && leb_ℤ u.backlog (pos 0)
      && is_ref (lookup u.key s.users) r
    then delete u.key s.users
    else s.users

unfoldable pub forget_locked : Ref → Scheduler → Scheduler
forget_locked r s = record s { users = forget_users r s }

-- changedLocked and unlockChanged: the channel is closed and replaced.
unfoldable pub unlock_changed : Scheduler → Scheduler
unlock_changed s = record s { changed = suc s.changed }
