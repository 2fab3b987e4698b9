-- ===== src/Scheduler/Outcomes.antt =====
-- internal/aml/scheduler.go: what becomes of a user whose job ends, and of work that is notified
-- meanwhile.
use mnemon.Prelude.{ℕ, suc, ◌+◌, ◌≡◌, Bool, true, false, Option, none, some, if◌then◌else◌, arith}
use mnemon.Prelude.Int.{ℤ, pos, ◌+ℤ◌, int64, leb_ℤ}
use mnemon.Prelude.Store.{Ref}
use mnemon.Scheduler.State.{
  UserState, idle, queued, backing_off, SchedUser, Scheduler, JobError, failure, reserve,
  JobOutcome, job_ok, job_failed, job_paused, job_canceled, reserve_pause,
}
use mnemon.Scheduler.Locked.{retry_delay}
use mnemon.Scheduler.Ops.{finish}

-- The state that a user takes when its job ends.
abbrev pub state_after : JobOutcome → Bool → UserState
state_after job_canceled dirty = queued
state_after job_ok true = queued
state_after job_ok false = idle
state_after job_failed dirty = backing_off
state_after job_paused dirty = backing_off

abbrev pub failures_after : JobOutcome → ℕ → ℕ
failures_after job_canceled n = n
failures_after job_ok n = 0
failures_after job_failed n = suc n
failures_after job_paused n = suc n

-- When the backoff of a user whose job ended ends.
abbrev pub retry_after : JobOutcome → ℕ → ℕ → SchedUser → ℕ
retry_after job_canceled now jitter u = u.retry_at
retry_after job_ok now jitter u = u.retry_at
retry_after job_failed now jitter u = now + retry_delay (suc u.failures) jitter
retry_after job_paused now jitter u = now + reserve_pause

-- The backlog that a user has after a job that measured it.
abbrev pub backlog_after : ℤ → SchedUser → ℤ
backlog_after measure u = if leb_ℤ (pos 0) measure then int64 (measure +ℤ u.added) else u.backlog

-- What a job's end makes of its user `u`, by its outcome: `v` is the user after it.
pub record Settled (u v : SchedUser) (outcome : JobOutcome) (measure : ℤ) (now jitter : ℕ)
    : Type 0 where
  pub state : v.state ≡ state_after outcome u.dirty
  pub failures : v.failures ≡ failures_after outcome u.failures
  pub retry_at : v.retry_at ≡ retry_after outcome now jitter u
  pub backlog : v.backlog ≡ backlog_after measure u
  pub added : v.added ≡ pos 0
  pub clean : v.dirty ≡ false
  pub holds : v.holds ≡ u.holds
  pub waiters : v.waiters ≡ u.waiters

-- However a job ends, finish leaves its user as the outcome that it reports says: the state, the
-- failures in a row, the end of the backoff and the backlog; holds and waiters stay.
pub finish-Settled :
    (cut : Bool) (measure : ℤ) (err : Option JobError) (now jitter : ℕ) (r : Ref) (s : Scheduler)
    → let (t, outcome, line) = finish cut measure err now jitter r s in
      Settled (s.heap r) (t.heap r) outcome measure now jitter
unfolding finish
finish-Settled true measure err now jitter r s = ground arith
finish-Settled false measure none now jitter r s = ground arith
finish-Settled false measure (some failure) now jitter r s = ground arith
finish-Settled false measure (some reserve) now jitter r s = ground arith
