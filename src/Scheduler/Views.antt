-- ===== src/Scheduler/Views.antt =====
-- internal/aml/scheduler.go, lines 353-412: what the scheduler shows of its users.
use mnemon.Prelude.{
  ℕ, suc, ◌-◌, ◌&&◌, not, String, Option, none, some, List, [], ◌∷◌, ltb, ◌==◌, if◌then◌else◌,
  length, max,
}
use mnemon.Prelude.Int.{ℤ, pos, max_ℤ}
use mnemon.Prelude.Store.{Ref}
use mnemon.Prelude.Dict.{lookup}
use mnemon.Scheduler.State.{
  UserState, idle, queued, running, backing_off, is_idle, SchedUser, Scheduler, SchedulerStatus,
}

-- The loop of Status over the users.
unfoldable pub status_users :
    ℕ → (Ref → SchedUser) → List (String × Ref) → SchedulerStatus → SchedulerStatus
status_users now heap [] status = status
status_users now heap ((k, r) ∷ rest) status =
    let u = heap r in
    status_users now heap rest (record status {
      held = if ltb 0 u.holds then suc status.held else status.held;
      max_backlog = max_ℤ status.max_backlog u.backlog;
      oldest_queued =
          if not (is_idle u.state) && not (u.since == 0)
          then max status.oldest_queued (now - u.since)
          else status.oldest_queued;
    })

unfoldable pub status : ℕ → Scheduler → SchedulerStatus
unfolding status_users
status now s = status_users now s.heap s.users (record {
  queued = length s.queue;
  running = s.running;
  backing_off = length s.retries;
  held = 0;
  oldest_queued = 0;
  max_backlog = pos 0;
})

-- How StateOf names a state.
pub data StateName : Type 0 where
  named_idle named_queued named_running named_backing_off named_held : StateName

unfoldable pub state_name : UserState → ℕ → StateName
state_name queued holds = named_queued
state_name running holds = named_running
state_name backing_off holds = named_backing_off
state_name idle holds = if ltb 0 holds then named_held else named_idle

unfoldable pub state_of : String → Scheduler → StateName × ℕ
unfolding state_name
state_of key s = elim (lookup key s.users) [
  | none ↦ (named_idle, 0)
  | some r ↦ (state_name (s.heap r).state (s.heap r).holds, (s.heap r).failures)
]

-- Backlog: the estimate, when one is known.
unfoldable pub backlog : String → Scheduler → Option ℤ
backlog key s = elim (lookup key s.users) [
  | none ↦ none
  | some r ↦ if (s.heap r).measured then some (s.heap r).backlog else none
]
