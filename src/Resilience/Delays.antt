-- ===== src/Resilience/Delays.antt =====
-- internal/memoryagent/resilience.go: the policies that a configuration gives, how long their retries
-- wait, and what a status makes of an answer.
use mnemon.Prelude.{
  mul_le, ℕ, zero, suc, ◌+◌, ◌*◌, ◌/◌, ◌^◌, ◌≤◌, ◌<◌, ◌≡◌, ◌⊎◌, true, false, min, max, arith,
  Option, none, some,
}
use mnemon.Resilience.Policies.{
  sec, draws, CallClass, interactive, flush, background, ModelConfig, ClassPolicy, check_resilience,
  class_policies, ceiling, retry_delay, retryable_status, failing_status, rejected_status,
  parse_retry_after,
}

-- A configuration that is accepted gives every class between one and ten attempts, each of which
-- waits at most the hard timeout, a Background one exactly that, and shifts no duration out of an
-- int64: backoff << 15 and throttleFloor << 16 stay below 2^63.
pub class_policies_valid :
    (config : ModelConfig) (hard : ℕ) (class : CallClass)
    → check_resilience config hard ≡ true
    → let c = class_policies config hard class in
      (1 ≤ c.max_attempts)
      × (c.max_attempts ≤ 10)
      × (c.attempt_timeout ≤ hard)
      × (c.backoff * 2 ^ 15 < 2 ^ 63)
      × (c.throttle_floor * 2 ^ 16 < 2 ^ 63)
      × ((class_policies config hard background).attempt_timeout ≡ hard)
unfolding class_policies check_resilience
class_policies_valid config hard interactive e = ground arith
class_policies_valid config hard flush e = ground arith
class_policies_valid config hard background e = ground arith

scaled_le : (random n : ℕ) → random < draws → random * n / draws ≤ n
scaled_le random n h =
    let b : random * n ≤ draws * n = mul_le random draws n (omega arith) in omega (arith, b)

ceiling-le : (c : ClassPolicy) (retry : ℕ) → ceiling c retry ≤ c.max_backoff
unfolding ceiling
ceiling-le c zero = omega arith
ceiling-le c (suc shift) = ground arith

-- A retry waits at least what the endpoint asked for, up to maxRetryAfter, and at most that or
-- maxBackoff; one of the first sixteen that asked for nothing waits at most the doubled backoff.
pub policy_delay_bounds :
    (c : ClassPolicy) (retry retry_after random : ℕ)
    → random < draws
    → (min retry_after c.max_retry_after ≤ retry_delay c retry retry_after random)
      × (retry_delay c retry retry_after random
          ≤ max c.max_backoff (min retry_after c.max_retry_after))
      × (retry < 16 → retry_delay c (suc retry) 0 random ≤ c.backoff * 2 ^ retry)
unfolding retry_delay
policy_delay_bounds c retry retry_after random h =
    let s = scaled_le random (ceiling c retry) h in
    let t = scaled_le random (ceiling c (suc retry)) h in
    (
      omega arith,
      omega (arith, s, ceiling-le c retry),
      λ first. unfold ceiling in ground (arith, t),
    )

-- A rejection is neither retried nor a failure of availability, a 429 is retried and no failure of
-- availability, and any other status that is retried is such a failure, a 408 or a 425.
pub status_kinds :
    (code : ℕ)
    → (rejected_status code ≡ true
        → (retryable_status code ≡ false) × (failing_status code ≡ false))
      × (code ≡ 429 → (retryable_status code ≡ true) × (failing_status code ≡ false))
      × (retryable_status code ≡ true
          → (failing_status code ≡ true) ⊎ (code ≡ 408) ⊎ (code ≡ 425) ⊎ (code ≡ 429))
unfolding rejected_status retryable_status failing_status
status_kinds code = (λ h. ground arith, λ h. ground arith, λ h. ground arith)

-- The wait that a header asks for is at most a day when it is a number of seconds, and otherwise is
-- what is left until the moment that it names, nothing when that is past.
pub parse_retry_after_bounds :
    (seconds date : Option ℕ) (now at : ℕ)
    → ((n : ℕ) → parse_retry_after (some n) date now ≤ 86400 * sec)
      × (parse_retry_after none (some at) now + min now at ≡ at)
unfolding parse_retry_after
parse_retry_after_bounds seconds date now at = (λ n. omega arith, ground arith)
