-- ===== src/Resilience/Policies.antt =====
-- internal/memoryagent/resilience.go: the classes of model calls, their policies and delays, and the
-- tests on HTTP statuses. A time is a number of nanoseconds.
use mnemon.Prelude.{
  ℕ, zero, suc, ◌+◌, ◌-◌, ◌*◌, ◌/◌, ◌^◌, Bool, ◌&&◌, ◌||◌, String, Option, none, some, str_eq, min,
  max, ltb, leb, ◌==◌, if◌then◌else◌,
}

abbrev pub ms : ℕ
ms = 10 ^ 6

abbrev pub sec : ℕ
sec = 10 ^ 9

-- A random number in [0, 1) is a number of 2⁻⁵³.
abbrev pub draws : ℕ
draws = 2 ^ 53

pub data CallClass : Type 0 where
  interactive flush background : CallClass

-- CallClass.String.
unfoldable pub class_name : CallClass → String
class_name interactive = "interactive"
class_name flush = "flush"
class_name background = "background"

-- callClass, on the class that the context carries, if it does.
unfoldable pub call_class : Option CallClass → CallClass
call_class none = interactive
call_class (some c) = c

-- consolidationCalls, on the same.
unfoldable pub consolidation_calls : Option CallClass → Option CallClass
consolidation_calls (some flush) = some flush
consolidation_calls (some interactive) = some background
consolidation_calls (some background) = some background
consolidation_calls none = some background

-- The settings of ModelConfig that the policies read.
pub record ModelConfig : Type 0 where
  pub kind : String
  pub attempt_timeout_seconds : ℕ
  pub max_attempts : ℕ

pub record ClassPolicy : Type 0 where
  pub class : CallClass
  pub attempt_timeout : ℕ
  pub body_idle : ℕ
  pub max_attempts : ℕ
  pub backoff : ℕ
  pub max_backoff : ℕ
  pub max_retry_after : ℕ
  pub throttled_retries : ℕ
  pub throttle_floor : ℕ
  pub max_throttle_wait : ℕ
  pub calls : ℕ
  -- In tenths of the cap.
  pub share : ℕ

-- checkResilience for its two numbers, which are not negative here.
unfoldable pub check_resilience : ModelConfig → ℕ → Bool
check_resilience config hard =
    leb config.attempt_timeout_seconds (hard / sec) && leb config.max_attempts 10

-- The attempt timeout of Interactive calls.
unfoldable pub interactive_timeout : ModelConfig → ℕ
interactive_timeout config =
    if ltb 0 config.attempt_timeout_seconds
    then config.attempt_timeout_seconds * sec
    else if str_eq config.kind "jev"
    then 20 * sec
    else 45 * sec

abbrev attempts_or : ModelConfig → ℕ → ℕ
attempts_or config n = if ltb 0 config.max_attempts then config.max_attempts else n

-- classPolicies; a bulkhead is its size.
unfoldable pub class_policies : ModelConfig → ℕ → CallClass → ClassPolicy
unfolding interactive_timeout
class_policies config hard interactive = record {
  class = interactive;
  attempt_timeout = min (interactive_timeout config) hard;
  body_idle = 60 * sec;
  max_attempts = attempts_or config 4;
  backoff = 500 * ms;
  max_backoff = 8 * sec;
  max_retry_after = 10 * sec;
  throttled_retries = 5;
  throttle_floor = 2 * sec;
  max_throttle_wait = 30 * sec;
  calls = 32;
  share = 10;
}
class_policies config hard flush = record {
  class = flush;
  attempt_timeout = min (180 * sec) hard;
  body_idle = 60 * sec;
  max_attempts = attempts_or config 3;
  backoff = 2 * sec;
  max_backoff = 60 * sec;
  max_retry_after = 300 * sec;
  throttled_retries = 5;
  throttle_floor = 2 * sec;
  max_throttle_wait = 30 * sec;
  calls = 8;
  share = 10;
}
class_policies config hard background = record {
  class = background;
  attempt_timeout = hard;
  body_idle = 60 * sec;
  max_attempts = attempts_or config 3;
  backoff = 2 * sec;
  max_backoff = 60 * sec;
  max_retry_after = 300 * sec;
  throttled_retries = 0;
  throttle_floor = 0;
  max_throttle_wait = 0;
  calls = 8;
  share = 9;
}

-- The most that a backoff waits: backoff << (retry - 1), at most maxBackoff.
unfoldable pub ceiling : ClassPolicy → ℕ → ℕ
ceiling c zero = c.max_backoff
ceiling c (suc shift) =
    if ltb shift 16 then min c.max_backoff (c.backoff * 2 ^ shift) else c.max_backoff

-- retryDelay.
unfoldable pub retry_delay : ClassPolicy → ℕ → ℕ → ℕ → ℕ
unfolding ceiling
retry_delay c retry retry_after random =
    max (random * ceiling c retry / draws) (min retry_after c.max_retry_after)

-- The jittered floor of throttleDelay: throttleFloor << min(k - 1, 16), from 75% of it to all of it.
unfoldable pub jittered_floor : ClassPolicy → ℕ → ℕ → ℕ
jittered_floor c k random =
    c.throttle_floor * 2 ^ min (k - 1) 16 * (3 * draws + random) / (4 * draws)

-- throttleDelay.
unfoldable pub throttle_delay : ClassPolicy → ℕ → ℕ → ℕ → ℕ
unfolding retry_delay jittered_floor
throttle_delay c retry k random = max (retry_delay c retry 0 random) (jittered_floor c k random)

-- parseRetryAfter, on the whole number of seconds that the header holds, if it holds one that is not
-- negative, or else on the moment that it names.
unfoldable pub parse_retry_after : Option ℕ → Option ℕ → ℕ → ℕ
parse_retry_after (some seconds) date now = min seconds 86400 * sec
parse_retry_after none none now = 0
parse_retry_after none (some at) now = if ltb now at then at - now else 0

unfoldable pub retryable_status : ℕ → Bool
retryable_status code =
    code == 408
    || code == 425
    || code == 429
    || code == 500
    || code == 502
    || code == 503
    || code == 504
    || code == 524
    || code == 529

unfoldable pub failing_status : ℕ → Bool
failing_status code = leb 500 code && leb code 599

unfoldable pub rejected_status : ℕ → Bool
rejected_status code = code == 401 || code == 402 || code == 403
