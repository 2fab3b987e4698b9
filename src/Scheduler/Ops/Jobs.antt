-- ===== src/Scheduler/Ops/Jobs.antt =====
-- internal/aml/scheduler.go: the run of the workers, the choice of the next job and what becomes of
-- a job's user. The clock and the jitter are arguments.
use mnemon.Prelude.{
  ℕ, suc, ◌+◌, ◌-◌, Bool, true, false, String, Option, none, some, [], ◌∷◌, ◌==◌, if◌then◌else◌,
  erase,
}
use mnemon.Prelude.Int.{ℤ, pos, negsuc, ◌+ℤ◌, int64, leb_ℤ}
use mnemon.Prelude.Store.{Ref, update}
use mnemon.Prelude.Dict.{insert}
use mnemon.Scheduler.State.{
  idle, running, backing_off, SchedUser, Scheduler, reserve_pause, JobError, failure, reserve,
  JobOutcome, job_outcome, LogLine, retries_in, paused_reserve, panicked,
}
use mnemon.Scheduler.Locked.{
  retry_delay, enqueue_locked, push_retry, retry_due_locked, first_unheld_locked, forget_locked,
  unlock_changed,
}

-- WaitDrained returns once this holds.
unfoldable pub drained : Scheduler → Bool
drained s = s.running == 0

-- Run, up to the start of its workers; `false` while another Run runs.
unfoldable pub run_start : Scheduler → Scheduler × Bool
run_start s = if s.started then (s, false) else (record s { started = true; stopped = false }, true)

-- Run, once its workers have exited.
unfoldable pub run_end : Scheduler → Scheduler
unfolding unlock_changed
run_end s = unlock_changed (record s { started = false; stopped = true })

-- A round of `next`: its worker exits, runs a user, or sleeps, for the time given when it is not 0.
pub data Next : Type 0 where
  exits : Next
  runs : Ref → Next
  sleeps : ℕ → Next

unfoldable pub start_job : Ref → Scheduler → Scheduler
start_job r s = record s {
  queue = erase s.queue r;
  heap =
      update s.heap r
        (record (s.heap r) { state = running; added = pos 0; dirty = false; dirty_since = 0 });
  running = suc s.running;
}

unfoldable pub retry_wait : ℕ → Scheduler → ℕ
retry_wait now s = elim s.retries [ [] ↦ 0 | r ∷ rest ↦ (s.heap r).retry_at - now ]

-- The choice of `next`, on the first user of the queue that nobody holds.
unfoldable pub pick : Option Ref → ℕ → Scheduler → Scheduler × Next
unfolding start_job retry_wait
pick (some r) now s = (start_job r s, runs r)
pick none now s = (s, sleeps (retry_wait now s))

unfoldable pub next : ℕ → Scheduler → Scheduler × Next
unfolding retry_due_locked first_unheld_locked pick
next now s =
    let s' = retry_due_locked now s in
    if s.draining then (s, exits) else pick (first_unheld_locked s') now s'

-- A user's job (`run`): it returns its measure and its failure, or it panics.
pub data JobRun : Type 0 where
  returns : ℤ → Option JobError → JobRun
  panics : JobRun

-- call.
unfoldable pub call : String → JobRun → ℤ × Option JobError × Option LogLine
call key (returns backlog err) = (backlog, err, none)
call key panics = (negsuc 0, some failure, some (panicked key))

-- The user of a job that ended with the measure, which is negative when it is unknown.
unfoldable pub measure_user : ℤ → SchedUser → SchedUser
measure_user backlog u =
    if leb_ℤ (pos 0) backlog
    then record u { backlog = int64 (backlog +ℤ u.added); measured = true; added = pos 0 }
    else record u { added = pos 0 }

unfoldable pub record_measure : ℤ → Ref → Scheduler → Scheduler
unfolding measure_user
record_measure backlog r s = record s {
  heap = update s.heap r (measure_user backlog (s.heap r));
  measured = if leb_ℤ (pos 0) backlog then insert (s.heap r).key true s.measured else s.measured;
}

-- How long a failed job's user backs off, and what is logged of it.
unfoldable pub pause_after : JobError → ℕ → ℕ
pause_after reserve delay = reserve_pause
pause_after failure delay = delay

unfoldable pub line_after : JobError → ℕ → String → LogLine
line_after reserve delay key = paused_reserve key
line_after failure delay key = retries_in delay key

-- The default case of finish's switch: the user backs off.
unfoldable pub back_off : JobError → ℕ → ℕ → Ref → Scheduler → Scheduler × Option LogLine
unfolding push_retry retry_delay pause_after line_after
back_off err now jitter r s =
    let u = s.heap r in
    let delay = retry_delay (suc u.failures) jitter in
    let heap = update s.heap r (record u {
      failures = suc u.failures;
      state = backing_off;
      retry_at = now + pause_after err delay;
      seq = suc s.retry_seq;
    }) in
    (
      record s { heap = heap; retry_seq = suc s.retry_seq; retries = push_retry heap r s.retries },
      some (line_after err delay u.key),
    )

-- The case of a job that succeeded.
unfoldable pub succeed : Ref → Scheduler → Scheduler
unfolding enqueue_locked
succeed r s =
    let u = s.heap r in
    if u.dirty
    then enqueue_locked r
        (record s { heap = update s.heap r (record u { failures = 0; since = u.dirty_since }) })
    else record s { heap = update s.heap r (record u { failures = 0; state = idle; since = 0 }) }

-- finish's switch.
unfoldable pub settle_job :
    Bool → Option JobError → ℕ → ℕ → Ref → Scheduler → Scheduler × Option LogLine
unfolding enqueue_locked back_off succeed
settle_job true err now jitter r s = (enqueue_locked r s, none)
settle_job false none now jitter r s = (succeed r s, none)
settle_job false (some err) now jitter r s = back_off err now jitter r s

-- The end of finish: the marks of the job that ended are cleared.
unfoldable pub clear_dirty : Ref → Scheduler → Scheduler
clear_dirty r s = record s {
  heap = update s.heap r (record (s.heap r) { dirty = false; dirty_since = 0 });
}

-- finish, with the outcome that jobDone is told and the line that is logged.
unfoldable pub finish :
    Bool → ℤ → Option JobError → ℕ → ℕ → Ref → Scheduler → Scheduler × JobOutcome × Option LogLine
unfolding settle_job record_measure clear_dirty forget_locked unlock_changed job_outcome
finish cut backlog err now jitter r s =
    let s₁ = record_measure backlog r (record s { running = s.running - 1 }) in
    let (s₂, line) = settle_job cut err now jitter r s₁ in
    (unlock_changed (forget_locked r (clear_dirty r s₂)), job_outcome cut err, line)
