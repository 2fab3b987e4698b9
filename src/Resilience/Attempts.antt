-- ===== src/Resilience/Attempts.antt =====
-- internal/memoryagent/resilience.go, send: the attempts of a call in turn, and the waits between them.
-- The retry policy of failsafe-go runs an attempt and, when the attempt failed and may be retried, asks
-- stop whether it ends the call; it waits the call's delay and runs the next attempt only when stop
-- said no.
use mnemon.Prelude.{
  ℕ, ◌+◌, ◌≡◌, Bool, true, false, Option, none, List, [], ◌∷◌, one_if, if◌then◌else◌, ltb, if-cases,
}
use mnemon.Budget.Ops.{is_some}
use mnemon.Resilience.Policies.{ClassPolicy}
use mnemon.Resilience.Retries.{RetryBudget, allow}
use mnemon.Resilience.Call.{
  Cause, FlightResult, ModelCall, Calling, attempted, spent, attempt, stop, patient,
}

-- A call as send makes it.
abbrev pub begins : ClassPolicy → RetryBudget → ℕ → Calling
begins policy ring rejections = record {
  call = record {
    policy = policy;
    attempts = 0;
    last = record { status = 0; error = none; retry = false; failed = false; invalid = false };
    revalid = false;
    delay = 0;
    throttled = 0;
    throttle_wait = 0;
  };
  ring = ring;
  rejections = rejections;
  events = [];
}

-- The points that a call reaches: before an attempt, and after one.
pub data Phase : Type 0 where
  ready done : Phase

pub data Reaches (policy : ClassPolicy) (ring : RetryBudget) (rejections : ℕ)
    : Phase → Calling → Type 0 where
  start : Reaches policy ring rejections ready (begins policy ring rejections)
  -- Other calls change the ring meanwhile; a request says that it may be retried only with an error
  -- that is not of an invalid reply.
  tries :
      {s : Calling} (other : RetryBudget) (now : ℕ) (tried : FlightResult) (verdict : Option Cause)
      → Reaches policy ring rejections ready s
      → (tried.retry ≡ true → (tried.invalid ≡ false) × (is_some tried.error ≡ true))
      → Reaches policy ring rejections done (attempt now tried verdict (record s { ring = other }))
  retries :
      {s : Calling} (deadline : Option ℕ) (now random : ℕ) (c : ModelCall)
      → Reaches policy ring rejections done s
      → s.call.last.retry ≡ true
      → stop deadline now random s.call ≡ (false, c)
      → Reaches policy ring rejections ready (record s { call = c })

-- A wait before a retry: the delay that the retry policy asks the call for, and whether the retry is
-- patient.
pub record Wait : Type 0 where
  pub patiently : Bool
  pub time : ℕ

-- The waits that a call made, the last one first.
unfoldable pub waits_of :
    {policy : ClassPolicy} {ring : RetryBudget} {rejections : ℕ} {phase : Phase} {s : Calling}
    → Reaches policy ring rejections phase s
    → List Wait
waits_of start = []
waits_of (tries other now tried verdict r sound) = waits_of r
waits_of (retries {s} deadline now random c r again e) =
    record { patiently = patient s.call; time = c.delay } ∷ waits_of r

-- How many waits are patient, and how long these are together.
unfoldable pub patient_waits : List Wait → ℕ
patient_waits [] = 0
patient_waits (w ∷ rest) = one_if w.patiently + patient_waits rest

unfoldable pub patient_time : List Wait → ℕ
patient_time [] = 0
patient_time (w ∷ rest) =
    let others = patient_time rest in if w.patiently then w.time + others else others

-- An attempt runs, or ends the call for the retry budget.
pub attempt-cases :
    (P : Calling → Type 0) (now : ℕ) (tried : FlightResult) (verdict : Option Cause) (s : Calling)
    → ((r : RetryBudget) → P (attempted tried verdict (record s { ring = r })))
    → ((r : RetryBudget) → P (spent (record s { ring = r })))
    → P (attempt now tried verdict s)
unfolding attempt
attempt-cases P now tried verdict s h k =
    if-cases P (ltb 0 s.call.attempts) _ _
      (λ e.
        if-cases P (allow now s.ring).0 _ _ (λ f. h (allow now s.ring).1)
          (λ f. k (allow now s.ring).1))
      (λ e. h s.ring)
