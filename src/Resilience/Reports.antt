-- ===== src/Resilience/Reports.antt =====
-- internal/memoryagent/resilience.go, modelCall: what a call shows its observer, and how often it
-- retries an invalid reply.
use mnemon.Prelude.{
  ℕ, ◌+◌, ◌≤◌, ◌≡◌, sym, ◌∙◌, ap, Bool, true, false, not, Option, List, [], ◌∷◌, one_if, arith,
  Bool-cases, Option-cases, inl, inr,
}
use mnemon.Budget.Ops.{is_some}
use mnemon.Resilience.Policies.{ClassPolicy}
use mnemon.Resilience.Retries.{RetryBudget}
use mnemon.Resilience.Call.{
  Cause, status_error, other, budget_cap, background_reserve, provider_closed, attempt_timeout,
  FlightResult, AttemptEvent, ModelCall, Calling, checked, may_revalidate, is_rejected, outcome,
  outcome_of_cause, outcome_of_answer, cause_of, attempted, spent, stop_patient, stop_plain, stop,
  ok, breaker_open, bulkhead_full, budget, invalid, throttled, rejected, retryable, failed, Outcome,
}
use mnemon.Resilience.Attempts.{Phase, ready, done, Reaches, start, tries, retries, attempt-cases}

abbrev pub is_invalid : Outcome → Bool
is_invalid invalid = true
is_invalid ok = false
is_invalid breaker_open = false
is_invalid bulkhead_full = false
is_invalid budget = false
is_invalid throttled = false
is_invalid rejected = false
is_invalid retryable = false
is_invalid failed = false

-- How many events have an outcome that a test takes.
abbrev pub events_of : (Outcome → Bool) → List AttemptEvent → ℕ
events_of test [] = 0
events_of test (e ∷ rest) = one_if (test e.outcome) + events_of test rest

module _ (deadline : Option ℕ) (now random : ℕ) (c : ModelCall) where
  stop-revalid : (stop deadline now random c).1.revalid ≡ c.revalid
  unfolding stop stop_patient stop_plain
  stop-revalid = ground arith

module _ (tried : FlightResult) (verdict : Option Cause) (s : Calling) (r : RetryBudget) where
  attempted-rejections :
      (n : ℕ)
      → s.rejections ≡ n + events_of is_rejected s.events
      → let s' = attempted tried verdict (record s { ring = r }) in
        s'.rejections ≡ n + events_of is_rejected s'.events
  unfolding attempted
  attempted-rejections n h =
      elim (Bool-cases
        (is_rejected (outcome (may_revalidate s.call.revalid (checked verdict tried))))) [
          | inl e ↦ rw e (omega (arith, h))
          | inr e ↦ rw e (omega (arith, h))
        ]

spent-rejections :
    (s : Calling) (r : RetryBudget) (n : ℕ)
    → s.rejections ≡ n + events_of is_rejected s.events
    → let s' = spent (record s { ring = r }) in s'.rejections ≡ n + events_of is_rejected s'.events
unfolding spent
spent-rejections s r n h = omega (arith, h)

-- A call adds to its provider's rejections once for each attempt that it reports as rejected, and for
-- nothing else.
pub rejections-exact :
    (policy : ClassPolicy) (ring : RetryBudget) (rejections : ℕ) (phase : Phase) (s : Calling)
    → Reaches policy ring rejections phase s
    → s.rejections ≡ rejections + events_of is_rejected s.events
rejections-exact policy ring rejections _ _ start = omega arith
rejections-exact policy ring rejections _ _ (tries {s} ring' now tried verdict r sound) =
    let ih = rejections-exact policy ring rejections ready s r in
    attempt-cases (λ (z : Calling). z.rejections ≡ rejections + events_of is_rejected z.events) now
      tried verdict (record s { ring = ring' })
      (λ q. attempted-rejections tried verdict s q rejections ih)
      (λ q. spent-rejections s q rejections ih)
rejections-exact policy ring rejections _ _ (retries {s} deadline now random c r again e) =
    rejections-exact policy ring rejections done s r

outcome_of_cause-invalid :
    (c : Cause) (r : FlightResult) → is_invalid (outcome_of_cause c r) ≡ true → r.invalid ≡ true
unfolding outcome_of_cause outcome_of_answer
outcome_of_cause-invalid breaker_open r e = absurd (ground arith)
outcome_of_cause-invalid bulkhead_full r e = absurd (ground arith)
outcome_of_cause-invalid budget_cap r e = absurd (ground arith)
outcome_of_cause-invalid background_reserve r e = absurd (ground arith)
outcome_of_cause-invalid provider_closed r e = ground arith
outcome_of_cause-invalid attempt_timeout r e = ground arith
outcome_of_cause-invalid (status_error code wait) r e = ground arith
outcome_of_cause-invalid other r e = ground arith

outcome-invalid : (r : FlightResult) → is_invalid (outcome r) ≡ true → r.invalid ≡ true
unfolding outcome
outcome-invalid r e = elim (Option-cases r.error) [
  | inl fine ↦ absurd (ground (arith, fine))
  | inr (x, found) ↦ outcome_of_cause-invalid (cause_of x) r (ground (arith, found))
]

-- The invalid replies that a call may have had.
abbrev allowed : Phase → ModelCall → ℕ
allowed ready c = one_if c.revalid
allowed done c = one_if c.revalid + one_if (not c.last.retry)

-- What an attempt's result is.
abbrev Sound : FlightResult → Type 0
Sound tried = tried.retry ≡ true → (tried.invalid ≡ false) × (is_some tried.error ≡ true)

checked-Sound :
    (verdict : Option Cause) (tried : FlightResult)
    → Sound tried
    → (checked verdict tried).retry ≡ true
    → (checked verdict tried).invalid ≡ false
unfolding checked
checked-Sound verdict tried sound e = elim (Option-cases tried.error) [
  | inl fine ↦ absurd (ground (arith, fine, sound))
  | inr (x, found) ↦ ground (arith, found, sound)
]

attempted-invalid :
    (tried : FlightResult) (verdict : Option Cause) (s : Calling) (r : RetryBudget)
    → Sound tried
    → events_of is_invalid s.events ≤ allowed ready s.call
    → let s' = attempted tried verdict (record s { ring = r }) in
      events_of is_invalid s'.events ≤ allowed done s'.call
unfolding attempted
attempted-invalid tried verdict s r sound h =
    let x = checked verdict tried in
    let y = may_revalidate s.call.revalid x in
    unfold may_revalidate in ground (arith, outcome-invalid y, checked-Sound verdict tried sound, h)

spent-invalid :
    (s : Calling) (r : RetryBudget)
    → events_of is_invalid s.events ≤ allowed ready s.call
    → let s' = spent (record s { ring = r }) in
      events_of is_invalid s'.events ≤ allowed done s'.call
unfolding spent
spent-invalid s r h = omega (arith, h)

goes-invalid :
    (deadline : Option ℕ) (now random : ℕ) (s : Calling) (c : ModelCall)
    → s.call.last.retry ≡ true
    → stop deadline now random s.call ≡ (false, c)
    → events_of is_invalid s.events ≤ allowed done s.call
    → events_of is_invalid s.events ≤ allowed ready c
goes-invalid deadline now random s c again e h =
    let kept : c.revalid ≡ s.call.revalid =
      sym (ap (λ (z : Bool × ModelCall). z.1.revalid) e)
      ∙ stop-revalid deadline now random s.call in
    ground (arith, again, kept, h)

Reaches-invalid :
    {policy : ClassPolicy} {ring : RetryBudget} {rejections : ℕ} {phase : Phase} {s : Calling}
    → Reaches policy ring rejections phase s
    → events_of is_invalid s.events ≤ allowed phase s.call
Reaches-invalid start = omega arith
Reaches-invalid (tries {s} ring' now tried verdict r sound) =
    let ih = Reaches-invalid r in
    attempt-cases (λ (z : Calling). events_of is_invalid z.events ≤ allowed done z.call) now tried
      verdict (record s { ring = ring' }) (λ q. attempted-invalid tried verdict s q sound ih)
      (λ q. spent-invalid s q ih)
Reaches-invalid (retries {s} deadline now random c r again e) =
    goes-invalid deadline now random s c again e (Reaches-invalid r)

allowed-le-two : (phase : Phase) (c : ModelCall) → allowed phase c ≤ 2
allowed-le-two ready c = ground arith
allowed-le-two done c = ground arith

-- A call retries an invalid reply at most once: it never has more than two.
pub invalid-le-two :
    (policy : ClassPolicy) (ring : RetryBudget) (rejections : ℕ) (phase : Phase) (s : Calling)
    → Reaches policy ring rejections phase s
    → events_of is_invalid s.events ≤ 2
invalid-le-two policy ring rejections phase s r =
    let h = Reaches-invalid r in omega (arith, h, allowed-le-two phase s.call)
