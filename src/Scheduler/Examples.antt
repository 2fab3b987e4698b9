-- ===== src/Scheduler/Examples.antt =====
-- internal/aml/scheduler.go: a run of the scheduler, on which the theorems are used. Two users are
-- notified, both run at once on two workers, and one job fails.
use mnemon.Prelude.{
  suc, ◌*◌, ◌≤◌, ◌<◌, ◌≡◌, ◌⊎◌, refl, true, false, none, some, List, ◌∷◌, ◌++◌, length, count, min,
  All, arith,
}
use mnemon.Prelude.Int.{pos, negsuc, int64, ◌+ℤ◌}
use mnemon.Prelude.Store.{Ref}
use mnemon.Prelude.Dict.{lookup}
use mnemon.Scheduler.State.{failure, retry_max}
use mnemon.Scheduler.Locked.{
  active_locked, retry_due_locked, retry_delay, forget_locked, enqueue_locked, unlock_changed,
}
use mnemon.Scheduler.Ops.{
  notify, run_start, next, runs, sleeps, finish, no_room, drain, hold, notify_found, notify_user,
  notify_state, add_user, yielding,
}
use mnemon.Scheduler.Views.{state_of}
use mnemon.Scheduler.System.Defs.{
  System, init, notifies, starts, picks, finishes, waits, holds, Reach, here, later, sys_pick,
  sys_hold, sys_finish, sys_wait,
}
use mnemon.Scheduler.System.Reach.{IsConsistent, Reach-IsConsistent}
use mnemon.Scheduler.Exclusion.{one_job_per_user, active-le-max_users}
use mnemon.Scheduler.Order.{
  due, not_due, lineup, retry_due-exact, next-runs_first, next-sleeps_held,
}
use mnemon.Scheduler.Outcomes.{Settled, finish-Settled}
use mnemon.Scheduler.Pending.{pending, Step-pending, notify-pending}
use mnemon.Scheduler.Draining.{Drains, drain-starts_none}
use mnemon.Scheduler.Wakeups.Always.{IsAwake, Reach-IsAwake}
use mnemon.Scheduler.Backoff.{doubled, retry_delay_bounds}
use mnemon.Scheduler.Visible.{forget-invisible}
use mnemon.Scheduler.Keeps.{needed, Step-needed}

abbrev started : System
started = record (init 2 10) { sched = (run_start (init 2 10).sched).0 }

abbrev one_user : System
one_user = record started { sched = (notify 1 "ada" (pos 5) started.sched).0 }

abbrev two_users : System
two_users = record one_user { sched = (notify 2 "bob" (pos 7) one_user.sched).0 }

abbrev one_job : System
one_job = sys_pick 3 two_users

abbrev two_jobs : System
two_jobs = sys_pick 4 one_job

abbrev one_failed : System
one_failed = sys_finish false (negsuc 0) (some failure) 5 0 0 two_jobs

abbrev one_waits : System
one_waits = sys_wait 3 "ada" (pos 2) two_users

reached_two_users : Reach (init 2 10) two_users
reached_two_users =
    later (later (later here (starts (init 2 10))) (notifies started 1 "ada" (pos 5)))
      (notifies one_user 2 "bob" (pos 7))

reached_two_jobs : Reach (init 2 10) two_jobs
unfolding run_start notify notify_found notify_user notify_state add_user enqueue_locked
    unlock_changed no_room sys_pick next
reached_two_jobs =
    later (later reached_two_users (picks two_users 3 refl (omega arith)))
      (picks one_job 4 refl (omega arith))

Reach-IsConsistent_example : IsConsistent two_jobs
Reach-IsConsistent_example = Reach-IsConsistent 2 10 reached_two_jobs

runs_both : (count 0 two_jobs.jobs ≡ 1) × (count 1 two_jobs.jobs ≡ 1)
unfolding run_start notify notify_found notify_user notify_state add_user enqueue_locked
    unlock_changed no_room sys_pick next
runs_both = (refl, refl)

one_job_per_user_example : (◌≡◌ {A = Ref} 1 1) × (count 1 two_jobs.jobs ≡ 1)
one_job_per_user_example =
    one_job_per_user 2 10 reached_two_jobs 1 1 (omega (arith, runs_both)) (omega (arith, runs_both))
      refl

active-le-max_users_example : active_locked two_jobs.sched ≤ two_jobs.sched.max_users
active-le-max_users_example = active-le-max_users 2 10 reached_two_jobs

runs_first : count 0 two_jobs.jobs ≡ 1
runs_first = runs_both.0

reached_one_failed : Reach (init 2 10) one_failed
reached_one_failed =
    later reached_two_jobs
      (finishes two_jobs false (negsuc 0) (some failure) 5 0 0 (omega (arith, runs_first)))

retry_due-exact_example :
    let s = one_failed.sched in
    ((retry_due_locked (10 * retry_max) s).queue ≡ s.queue ++ due s.heap (10 * retry_max) s.retries)
    × ((retry_due_locked (10 * retry_max) s).retries ≡ not_due s.heap (10 * retry_max) s.retries)
retry_due-exact_example =
    retry_due-exact (10 * retry_max) one_failed.sched
      (Reach-IsConsistent 2 10 reached_one_failed).inv.ordered

picks_first : (next 3 two_users.sched).1 ≡ runs 0
unfolding run_start notify notify_found notify_user notify_state add_user enqueue_locked
    unlock_changed no_room next
picks_first = refl

next-runs_first_example :
    let s = two_users.sched in
    (s.draining ≡ false)
    × ((s.heap 0).holds ≡ 0)
    × ((before : List Ref) × (after : List Ref) × (lineup 3 s ≡ before ++ (0 ∷ after))
        × All (λ x. 0 < (s.heap x).holds) before
        × ((next 3 s).0.queue ≡ before ++ after))
next-runs_first_example =
    next-runs_first 3 two_users.sched 0 (Reach-IsConsistent 2 10 reached_two_users).inv.ordered
      picks_first

abbrev all_held : System
all_held = sys_hold "ada" one_user

reached_all_held : Reach (init 2 10) all_held
reached_all_held =
    later (later (later here (starts (init 2 10))) (notifies started 1 "ada" (pos 5)))
      (holds one_user "ada")

held_sleeps : (all_held.sched.draining ≡ false) × ((next 3 all_held.sched).1 ≡ sleeps 0)
unfolding run_start notify notify_found notify_user notify_state add_user enqueue_locked
    unlock_changed no_room next sys_hold hold
held_sleeps = (refl, refl)

next-sleeps_held_example : All (λ x. 0 < (all_held.sched.heap x).holds) (lineup 3 all_held.sched)
next-sleeps_held_example =
    next-sleeps_held 3 0 all_held.sched (Reach-IsConsistent 2 10 reached_all_held).inv.ordered
      held_sleeps.0 held_sleeps.1

finish-Settled_example :
    let (t, outcome, line) = finish false (pos 3) (some failure) 5 0 0 two_jobs.sched in
    Settled (two_jobs.sched.heap 0) (t.heap 0) outcome (pos 3) 5 0
finish-Settled_example = finish-Settled false (pos 3) (some failure) 5 0 0 two_jobs.sched

ready_to_pick :
    (two_users.sched.started ≡ true)
    × (length two_users.jobs < two_users.sched.workers)
    × (pending (two_users.sched.heap 0) ≡ true)
unfolding run_start notify notify_found notify_user notify_state add_user enqueue_locked
    unlock_changed no_room
ready_to_pick = (refl, omega arith, refl)

Step-pending_example :
    (pending (one_job.sched.heap 0) ≡ true) ⊎ (count 0 one_job.jobs ≡ suc (count 0 two_users.jobs))
Step-pending_example =
    Step-pending (picks two_users 3 ready_to_pick.0 ready_to_pick.1)
      (Reach-IsConsistent 2 10 reached_two_users) 0 ready_to_pick.2

has_room : no_room (lookup "ada" two_jobs.sched.users) two_jobs.sched ≡ false
unfolding run_start notify notify_found notify_user notify_state add_user enqueue_locked
    unlock_changed no_room sys_pick next
has_room = refl

notify-pending_example :
    let t = (notify 6 "ada" (pos 4) two_jobs.sched).0 in
    (r : Ref) × (lookup "ada" t.users ≡ some r) × (pending (t.heap r) ≡ true)
notify-pending_example = notify-pending 6 "ada" (pos 4) two_jobs.sched has_room

abbrev drains_now : System
drains_now = record two_jobs { sched = drain two_jobs.sched }

runs_at_drain : 0 < count 0 drains_now.jobs
runs_at_drain = omega (arith, runs_first)

drain-starts_none_example :
    Drains (length two_jobs.jobs) (sys_finish true (pos 0) none 6 0 0 drains_now)
drain-starts_none_example =
    drain-starts_none two_jobs
      (later here (finishes drains_now true (pos 0) none 6 0 0 runs_at_drain))

Reach-IsAwake_example : IsAwake one_waits
Reach-IsAwake_example =
    Reach-IsAwake 2 10 (later reached_two_users (waits two_users 3 "ada" (pos 2)))

retry_delay_bounds_example :
    let delay = retry_delay 3 7 in
    (4 * min (doubled 3) retry_max ≤ 5 * delay) × (5 * delay ≤ 6 * doubled 3) × (delay ≤ retry_max)
retry_delay_bounds_example = retry_delay_bounds 3 7 (omega arith)

forget-invisible_example :
    let t = forget_locked 1 two_jobs.sched in
    (state_of "bob" t ≡ state_of "bob" two_jobs.sched)
    × (yielding "bob" t ≡ yielding "bob" two_jobs.sched)
forget-invisible_example = forget-invisible 2 10 reached_two_jobs "bob" 1

-- A job that did not measure its user ends, and nothing was written meanwhile: the user is idle, with
-- characters pending.
is_needed : needed ((sys_finish false (negsuc 0) none 6 0 0 two_jobs).sched.heap 0) ≡ true
unfolding sys_finish finish sys_pick next notify run_start int64 ◌+ℤ◌
is_needed = refl

Step-needed_example :
    lookup "ada" (sys_finish false (negsuc 0) none 6 0 0 two_jobs).sched.users ≡ some 0
unfolding sys_pick next notify run_start
Step-needed_example =
    Step-needed (finishes two_jobs false (negsuc 0) none 6 0 0 (omega (arith, runs_first))) "ada" 0
      refl is_needed
