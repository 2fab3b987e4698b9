-- ===== src/Scheduler/Draining.antt =====
-- internal/aml/scheduler.go: a graceful stop. Once Drain was called, no job starts.
use mnemon.Prelude.{
  ℕ, ◌≤◌, ◌≡◌, refl, ap, ◌∙◌, Bool, true, false, String, Option, none, some, length, arith,
  length-erase, Bool-cases, Option-cases, inl, inr,
}
use mnemon.Prelude.Int.{ℤ}
use mnemon.Prelude.Store.{Ref}
use mnemon.Prelude.Dict.{lookup}
use mnemon.Scheduler.State.{UserState, idle, queued, running, backing_off, Scheduler, JobError}
use mnemon.Scheduler.Ops.{
  drop_notification, notify_state, notify_user, notify_found, notify, no_room, wait_leave,
  wait_round, add_waiter, wait_backlog, wait_again, hold, release, drain, run_start, run_end, Next,
  finish, measured,
}
use mnemon.Scheduler.Order.{next-draining}
use mnemon.Scheduler.System.Defs.{
  System, Step, notifies, waits, wakes, holds, releases, drains, starts, ends, picks, finishes,
  measures, Reach, here, later, sys_wait, sys_wake, sys_hold, sys_pick, sys_finish,
}

draining-notify_state :
    (st : UserState) (now : ℕ) (added : ℤ) (r : Ref) (s : Scheduler)
    → (notify_state st now added r s).draining ≡ s.draining
unfolding notify_state
draining-notify_state idle now added r s = refl
draining-notify_state queued now added r s = refl
draining-notify_state running now added r s = refl
draining-notify_state backing_off now added r s = refl

draining-notify_found :
    (found : Option Ref) (now : ℕ) (key : String) (added : ℤ) (s : Scheduler)
    → (notify_found found now key added s).draining ≡ s.draining
unfolding notify_found notify_user
draining-notify_found none now key added s = draining-notify_state _ now added _ _
draining-notify_found (some r) now key added s = draining-notify_state _ now added _ _

draining-notify :
    (now : ℕ) (key : String) (added : ℤ) (s : Scheduler)
    → (notify now key added s).0.draining ≡ s.draining
unfolding notify drop_notification
draining-notify now key added s = elim (Bool-cases (no_room (lookup key s.users) s)) [
  | inl full ↦ rw full (ground arith)
  | inr room ↦ rw room (draining-notify_found (lookup key s.users) now key added s)
]

draining-wait_round :
    (now : ℕ) (limit : ℤ) (r : Ref) (s : Scheduler)
    → (wait_round now limit r s).0.draining ≡ s.draining
unfolding wait_round
draining-wait_round now limit r s = ground arith

draining-wait_backlog :
    (now : ℕ) (key : String) (limit : ℤ) (s : Scheduler)
    → (wait_backlog now key limit s).0.draining ≡ s.draining
unfolding wait_backlog
draining-wait_backlog now key limit s = elim (Option-cases (lookup key s.users)) [
  | inl e ↦ rw (e, wait_backlog) refl
  | inr (r, e) ↦ rw (e, wait_backlog) (draining-wait_round now limit r (add_waiter r s))
]

draining-wait_again :
    (ended : Bool) (now : ℕ) (limit : ℤ) (r : Ref) (s : Scheduler)
    → (wait_again ended now limit r s).0.draining ≡ s.draining
unfolding wait_again
draining-wait_again true now limit r s = unfold wait_leave in refl
draining-wait_again false now limit r s = draining-wait_round now limit r s

draining-finish :
    (cut : Bool) (measure : ℤ) (err : Option JobError) (now jitter : ℕ) (r : Ref) (s : Scheduler)
    → (finish cut measure err now jitter r s).0.draining ≡ s.draining
unfolding finish
draining-finish true measure err now jitter r s = refl
draining-finish false measure none now jitter r s = ground arith
draining-finish false measure (some err) now jitter r s = refl

draining-hold : (key : String) (s : Scheduler) → (hold key s).0.draining ≡ s.draining
unfolding hold
draining-hold key s = ground arith

draining-measured :
    (key : String) (chars : ℤ) (s : Scheduler) → (measured key chars s).draining ≡ s.draining
unfolding measured
draining-measured key chars s = ground arith

-- A state that drains, and runs at most `n` jobs.
pub record Drains (n : ℕ) (x : System) : Type 0 where
  pub draining : x.sched.draining ≡ true
  pub jobs : length x.jobs ≤ n

-- Once the scheduler drains, it goes on to drain, and no step of any caller starts a job.
pub Step-Drains : {n : ℕ} {x y : System} → Step x y → Drains n x → Drains n y
unfolding sys_wait sys_wake sys_hold sys_pick sys_finish
Step-Drains (notifies x now key added) d = record {
  draining = ground (arith, draining-notify now key added x.sched);
  jobs = d.jobs;
}
Step-Drains (waits x now key limit) d = record {
  draining = ground (arith, draining-wait_backlog now key limit x.sched);
  jobs = d.jobs;
}
Step-Drains (wakes x ended before w after e) d = record {
  draining = ground (arith, draining-wait_again ended w.now w.limit w.ref x.sched);
  jobs = d.jobs;
}
Step-Drains (holds x key) d = record {
  draining = ground (arith, draining-hold key x.sched);
  jobs = d.jobs;
}
Step-Drains (releases x r e) d = record { draining = unfold release in d.draining; jobs = d.jobs }
Step-Drains (drains x) d = record { draining = unfold drain in refl; jobs = d.jobs }
Step-Drains (starts x) d = record {
  draining = unfold run_start in ground (arith, d.draining);
  jobs = d.jobs;
}
Step-Drains (ends x on empty) d = record { draining = unfold run_end in d.draining; jobs = d.jobs }
Step-Drains (picks x now on room) d =
    let e = next-draining now x.sched d.draining in
    record {
      draining = ap (λ (a : Scheduler × Next). a.0.draining) e ∙ d.draining;
      jobs = rw e d.jobs;
    }
Step-Drains (finishes x cut measure err now jitter r e) d = record {
  draining = ground (arith, draining-finish cut measure err now jitter r x.sched, d.draining);
  jobs = omega (arith, length-erase r x.jobs e, d.jobs);
}
Step-Drains (measures x key chars) d = record {
  draining = ground (arith, draining-measured key chars x.sched);
  jobs = d.jobs;
}

-- In every state that is reached after Drain, the scheduler still drains, and at most as many jobs run
-- as ran then.
pub drain-starts_none :
    (x : System) {y : System}
    → Reach (record x { sched = drain x.sched }) y
    → Drains (length x.jobs) y
drain-starts_none x here = record { draining = unfold drain in refl; jobs = omega arith }
drain-starts_none x (later reached st) = Step-Drains st (drain-starts_none x reached)
