-- ===== src/Resilience/Examples.antt =====
-- internal/memoryagent/resilience.go: a model call, and a retry budget, on which the theorems are used.
use mnemon.Prelude.{
  ◌+◌, ◌*◌, ◌≤◌, ◌<◌, ◌≡◌, ◌⊎◌, ◌↔◌, refl, true, false, none, some, List, [], ◌∷◌, arith, min, max,
  ◌^◌,
}
use mnemon.Resilience.Policies.{
  sec, interactive, ModelConfig, ClassPolicy, check_resilience, class_policies, throttle_delay,
  retry_delay,
}
use mnemon.Resilience.Delays.{policy_delay_bounds}
use mnemon.Resilience.Retries.{empty_ring, called, allow}
use mnemon.Resilience.Call.{
  FlightResult, plain, status_error, ModelCall, Calling, attempt, stop, patient, is_rejected,
}
use mnemon.Resilience.Attempts.{
  ready, done, Reaches, start, tries, retries, begins, waits_of, patient_waits, patient_time,
}
use mnemon.Resilience.Bounds.{call_bounds}
use mnemon.Resilience.Reports.{events_of, is_invalid, rejections-exact, invalid-le-two}
use mnemon.Resilience.Window.{Entry, in_window, taken_at}
use mnemon.Resilience.Ring.{Rings, empty, begun, allow-exact}

abbrev config : ModelConfig
config = record { kind = "jev"; attempt_timeout_seconds = 0; max_attempts = 0 }

abbrev policy : ClassPolicy
policy = class_policies config (60 * sec) interactive

accepted : check_resilience config (60 * sec) ≡ true
unfolding check_resilience
accepted = refl

-- A 429 that names no wait, and the patient retry after it.
abbrev busy : FlightResult
busy = record {
  status = 429;
  error = some (plain (status_error 429 0));
  retry = true;
  failed = true;
  invalid = false;
}

abbrev first_tried : Calling
first_tried = attempt 100 busy none (begins policy empty_ring 0)

reached_first : Reaches policy empty_ring 0 done first_tried
reached_first = tries empty_ring 100 busy none start (λ e. (refl, refl))

abbrev waits : ModelCall
waits = (stop none 100 0 first_tried.call).1

goes_on : stop none 100 0 first_tried.call ≡ (false, waits)
unfolding stop attempt class_policies throttle_delay
goes_on = refl

may_retry : first_tried.call.last.retry ≡ true
unfolding attempt
may_retry = refl

reached_retry : Reaches policy empty_ring 0 ready (record first_tried { call = waits })
reached_retry = retries none 100 0 waits reached_first may_retry goes_on

one_attempt : 1 ≤ policy.max_attempts
unfolding class_policies
one_attempt = omega arith

-- The wait of the retry is counted.
waits_of-retry : patient_waits (waits_of reached_retry) ≡ 1
unfolding waits_of patient_waits patient attempt class_policies reached_retry reached_first
waits_of-retry = refl

call_bounds_example :
    let s : Calling = record first_tried { call = waits } in
    let made = waits_of reached_retry in
    (s.call.attempts ≤ policy.max_attempts + policy.throttled_retries)
    × (s.call.attempts ≤ policy.max_attempts + patient_waits made)
    × (patient_waits made ≤ policy.throttled_retries)
    × (patient_time made ≤ policy.max_throttle_wait)
call_bounds_example =
    call_bounds policy empty_ring 0 ready (record first_tried { call = waits }) one_attempt
      reached_retry

policy_delay_bounds_example :
    (min (20 * sec) policy.max_retry_after ≤ retry_delay policy 2 (20 * sec) 7)
    × (retry_delay policy 2 (20 * sec) 7
        ≤ max policy.max_backoff (min (20 * sec) policy.max_retry_after))
    × (2 < 16 → retry_delay policy 3 0 7 ≤ policy.backoff * 2 ^ 2)
policy_delay_bounds_example = policy_delay_bounds policy 2 (20 * sec) 7 (omega arith)

rejections-exact_example : first_tried.rejections ≡ 0 + events_of is_rejected first_tried.events
rejections-exact_example = rejections-exact policy empty_ring 0 done first_tried reached_first

invalid-le-two_example : events_of is_invalid first_tried.events ≤ 2
invalid-le-two_example = invalid-le-two policy empty_ring 0 done first_tried reached_first

abbrev one_call : List Entry
one_call = record { second = 100; retry = false } ∷ []

Rings-one : Rings 100 one_call (called 100 empty_ring)
Rings-one = begun 100 (omega arith) empty

allow-exact_example : ((allow 101 (called 100 empty_ring)).0 ≡ true) ↔ (
    (taken_at 101 one_call < 5)
    ⊎ (5 * (in_window true 101 one_call + 1) ≤ in_window false 101 one_call))
allow-exact_example = allow-exact 100 101 one_call (called 100 empty_ring) Rings-one (omega arith)
