-- ===== src/Resilience/Call.antt =====
-- internal/memoryagent/resilience.go, modelCall: one call across its attempts. What an attempt's
-- request brought back (try), what the call's check says of its reply, and the jitters drawn are
-- arguments.
use mnemon.Prelude.{
  ℕ, ◌+◌, ◌-◌, Bool, true, false, ◌&&◌, ◌||◌, not, Option, none, some, List, ◌∷◌, ltb, leb, ◌==◌,
  if◌then◌else◌,
}
use mnemon.Resilience.Policies.{ClassPolicy, retry_delay, throttle_delay, rejected_status}
use mnemon.Resilience.Retries.{RetryBudget, allow}

-- What an error wraps, as far as the code tests for it.
pub data Cause : Type 0 where
  breaker_open bulkhead_full budget_cap background_reserve provider_closed attempt_timeout : Cause
  status_error : ℕ → ℕ → Cause
  other : Cause

-- What became of a reservation, as an error says it.
pub data Note : Type 0 where
  released remains_held settled_at_estimate : Note

-- What wraps a cause says more, of no further category.
pub data CallError : Type 0 where
  plain : Cause → CallError
  noted : Note → CallError → CallError
  retry_budget_spent : CallError → CallError
  after_attempts : ℕ → CallError → CallError

unfoldable pub cause_of : CallError → Cause
cause_of (plain c) = c
cause_of (noted note e) = cause_of e
cause_of (retry_budget_spent e) = cause_of e
cause_of (after_attempts n e) = cause_of e

pub data Outcome : Type 0 where
  ok breaker_open bulkhead_full budget invalid throttled rejected retryable failed : Outcome

-- flightResult; the reply is not looked into.
pub record FlightResult : Type 0 where
  pub status : ℕ
  pub error : Option CallError
  pub retry : Bool
  pub failed : Bool
  pub invalid : Bool

-- The outcome of a failure that is none of the call's admission.
unfoldable pub outcome_of_answer : FlightResult → Outcome
outcome_of_answer r =
    if r.invalid
    then invalid
    else if r.status == 429
    then throttled
    else if rejected_status r.status
    then rejected
    else if r.retry
    then retryable
    else failed

unfoldable pub outcome_of_cause : Cause → FlightResult → Outcome
unfolding outcome_of_answer
outcome_of_cause breaker_open r = breaker_open
outcome_of_cause bulkhead_full r = bulkhead_full
outcome_of_cause budget_cap r = budget
outcome_of_cause background_reserve r = budget
outcome_of_cause provider_closed r = outcome_of_answer r
outcome_of_cause attempt_timeout r = outcome_of_answer r
outcome_of_cause (status_error code retry_after) r = outcome_of_answer r
outcome_of_cause other r = outcome_of_answer r

-- outcome.
unfoldable pub outcome : FlightResult → Outcome
unfolding outcome_of_cause cause_of
outcome r = elim r.error [ none ↦ ok | some e ↦ outcome_of_cause (cause_of e) r ]

-- AttemptEvent, without its kind, class, duration, status and usage.
pub record AttemptEvent : Type 0 where
  pub outcome : Outcome
  pub attempt : ℕ

pub record ModelCall : Type 0 where
  pub policy : ClassPolicy
  pub attempts : ℕ
  pub last : FlightResult
  pub revalid : Bool
  pub delay : ℕ
  pub throttled : ℕ
  pub throttle_wait : ℕ

-- The call with what it shares with the provider: its retry budget, its count of rejections and what
-- its observer has seen, the latest first.
pub record Calling : Type 0 where
  pub call : ModelCall
  pub ring : RetryBudget
  pub rejections : ℕ
  pub events : List AttemptEvent

-- What the call's check makes of a reply.
unfoldable pub checked : Option Cause → FlightResult → FlightResult
checked verdict r = elim r.error [
  | some e ↦ r
  | none ↦ elim verdict [ none ↦ r | some e ↦ record r { error = some (plain e); invalid = true } ]
]

-- An invalid reply is retried once.
unfoldable pub may_revalidate : Bool → FlightResult → FlightResult
may_revalidate revalid r = if r.invalid && not revalid then record r { retry = true } else r

abbrev pub is_rejected : Outcome → Bool
is_rejected rejected = true
is_rejected ok = false
is_rejected breaker_open = false
is_rejected bulkhead_full = false
is_rejected budget = false
is_rejected invalid = false
is_rejected throttled = false
is_rejected retryable = false
is_rejected failed = false

-- attempt, once the retry budget let it start, with what try brought back.
unfoldable pub attempted : FlightResult → Option Cause → Calling → Calling
unfolding checked may_revalidate outcome
attempted tried verdict s =
    let c = s.call in
    let r = checked verdict tried in
    let res = may_revalidate c.revalid r in
    let o = outcome res in
    record s {
      call = record c { attempts = c.attempts + 1; last = res; revalid = r.invalid || c.revalid };
      rejections = if is_rejected o then s.rejections + 1 else s.rejections;
      events = record { outcome = o; attempt = c.attempts + 1 } ∷ s.events;
    }

-- spent; what it wraps when the result has no error has no category.
unfoldable pub spent : Calling → Calling
spent s =
    let c = s.call in
    let wrapped : CallError = elim c.last.error [
      | none ↦ retry_budget_spent (plain other)
      | some e ↦ retry_budget_spent e
    ] in
    record s {
      call = record c { last = record c.last { error = some wrapped; retry = false } };
      events = record { outcome = budget; attempt = c.attempts + 1 } ∷ s.events;
    }

-- attempt.
unfoldable pub attempt : ℕ → FlightResult → Option Cause → Calling → Calling
unfolding attempted spent allow
attempt now tried verdict s =
    if ltb 0 s.call.attempts
    then (let taken = allow now s.ring in
        let s' = record s { ring = taken.1 } in
        if taken.0 then attempted tried verdict s' else spent s')
    else attempted tried verdict s

-- The wait that the last answer asks for.
unfoldable pub asked_wait : Option CallError → ℕ
unfolding cause_of
asked_wait none = 0
asked_wait (some e) = elim (cause_of e) [ status_error code wait ↦ wait | _ ↦ 0 ]

-- Whether the last answer is a 429 that names no wait, in a class that waits it out.
unfoldable pub patient : ModelCall → Bool
unfolding asked_wait
patient c = ltb 0 c.policy.throttled_retries && c.last.status == 429 && asked_wait c.last.error == 0

-- Whether a wait from now would end at or past the caller's deadline.
abbrev pub past_deadline : Option ℕ → ℕ → ℕ → Bool
past_deadline none now delay = false
past_deadline (some deadline) now delay = leb deadline (now + delay)

-- stop for a patient retry.
unfoldable pub stop_patient : Option ℕ → ℕ → ℕ → ModelCall → Bool × ModelCall
stop_patient deadline now random c =
    if leb c.policy.throttled_retries c.throttled
    then (true, c)
    else (let delay = throttle_delay c.policy c.attempts (c.throttled + 1) random in
        let waits = record c { delay = delay } in
        if ltb c.policy.max_throttle_wait (c.throttle_wait + delay)
        then (true, waits)
        else if past_deadline deadline now delay
        then (true, waits)
        else (
          false,
          record waits { throttled = c.throttled + 1; throttle_wait = c.throttle_wait + delay },
        ))

-- stop for any other retry.
unfoldable pub stop_plain : Option ℕ → ℕ → ℕ → ModelCall → Bool × ModelCall
unfolding asked_wait
stop_plain deadline now random c =
    if leb c.policy.max_attempts (c.attempts - c.throttled)
    then (true, c)
    else (let delay = retry_delay c.policy c.attempts (asked_wait c.last.error) random in
        (past_deadline deadline now delay, record c { delay = delay }))

-- stop: whether the call stops, and the call with the wait before its retry.
unfoldable pub stop : Option ℕ → ℕ → ℕ → ModelCall → Bool × ModelCall
unfolding patient stop_patient stop_plain
stop deadline now random c =
    if patient c then stop_patient deadline now random c else stop_plain deadline now random c

-- result: the error of the call, if it failed.
unfoldable pub result : ModelCall → Option CallError
result c = elim c.last.error [
  | none ↦ none
  | some e ↦ some (if ltb 1 c.attempts then after_attempts c.attempts e else e)
]
