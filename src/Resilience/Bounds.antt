-- ===== src/Resilience/Bounds.antt =====
-- internal/memoryagent/resilience.go, modelCall: how often a call tries and how long it waits
-- patiently.
use mnemon.Prelude.{
  ℕ, ◌+◌, ◌-◌, ◌≤◌, ◌≡◌, refl, subst, ap, Bool, true, false, Option, List, ◌∷◌, one_if,
  if◌then◌else◌, ltb, leb, if-cases, arith,
}
use mnemon.Resilience.Policies.{ClassPolicy, throttle_delay}
use mnemon.Resilience.Retries.{RetryBudget}
use mnemon.Resilience.Call.{
  Cause, FlightResult, ModelCall, Calling, attempted, spent, stop_patient, stop_plain, stop,
  past_deadline, patient,
}
use mnemon.Resilience.Attempts.{
  Phase, ready, done, Reaches, start, tries, retries, Wait, waits_of, patient_waits, patient_time,
  attempt-cases,
}

-- What an attempt that may still follow takes of the bound.
slack : Phase → ℕ
slack ready = 1
slack done = 0

-- What bounds a call.
record Bounded (policy : ClassPolicy) (left : ℕ) (c : ModelCall) : Type 0 where
  pub same_policy : c.policy ≡ policy
  pub tried : c.attempts + left ≤ policy.max_attempts + c.throttled
  pub throttles : c.throttled ≤ policy.throttled_retries
  pub waits : c.throttle_wait ≤ policy.max_throttle_wait

-- What a stop keeps when the call goes on.
unfoldable GoesOn : ClassPolicy → Bool × ModelCall → Type 0
GoesOn policy x = x.0 ≡ false → Bounded policy 1 x.1

stops : (policy : ClassPolicy) (c : ModelCall) → GoesOn policy (true, c)
unfolding GoesOn
stops policy c y = absurd (ground (arith, y))

goes_on :
    (policy : ClassPolicy) (late : Bool) (c : ModelCall)
    → Bounded policy 1 c
    → GoesOn policy (late, c)
unfolding GoesOn
goes_on policy late c b y = b

module _ (policy : ClassPolicy) (deadline : Option ℕ) (now random : ℕ) (c : ModelCall)
    (b : Bounded policy 0 c) where
  -- One more patient retry, which waits `d`.
  waited :
      (d : ℕ)
      → leb c.policy.throttled_retries c.throttled ≡ false
      → ltb c.policy.max_throttle_wait (c.throttle_wait + d) ≡ false
      → Bounded policy 1
          (record c { delay = d; throttled = c.throttled + 1; throttle_wait = c.throttle_wait + d })
  waited d room short =
      let capped = ap (λ (q : ClassPolicy). q.throttled_retries) b.same_policy in
      let longest = ap (λ (q : ClassPolicy). q.max_throttle_wait) b.same_policy in
      record {
        same_policy = b.same_policy;
        tried = omega (arith, b.tried);
        throttles = ground (arith, capped, room);
        waits = ground (arith, longest, short);
      }

  retried :
      (d : ℕ)
      → leb c.policy.max_attempts (c.attempts - c.throttled) ≡ false
      → Bounded policy 1 (record c { delay = d })
  retried d left =
      let most = ap (λ (q : ClassPolicy). q.max_attempts) b.same_policy in
      record {
        same_policy = b.same_policy;
        tried = ground (arith, most, left);
        throttles = b.throttles;
        waits = b.waits;
      }

  stop_patient-GoesOn : GoesOn policy (stop_patient deadline now random c)
  unfolding stop_patient
  stop_patient-GoesOn =
      let d = throttle_delay c.policy c.attempts (c.throttled + 1) random in
      if-cases (GoesOn policy) _ _ _ (λ x. stops policy _)
        (λ room.
          if-cases (GoesOn policy) _ _ _ (λ x. stops policy _)
            (λ short.
              if-cases (GoesOn policy) (past_deadline deadline now d) (true, record c { delay = d })
                _ (λ x. stops policy (record c { delay = d }))
                (λ soon. goes_on policy false _ (waited d room short))))

  stop_plain-GoesOn : GoesOn policy (stop_plain deadline now random c)
  unfolding stop_plain
  stop_plain-GoesOn =
      if-cases (GoesOn policy) _ _ _ (λ x. stops policy _)
        (λ left. goes_on policy _ _ (retried _ left))

  stop-Bounded : (c' : ModelCall) → stop deadline now random c ≡ (false, c') → Bounded policy 1 c'
  unfolding stop GoesOn
  stop-Bounded c' e =
      let goes : GoesOn policy (stop deadline now random c) =
        if-cases (GoesOn policy) _ _ _ (λ p. stop_patient-GoesOn) (λ p. stop_plain-GoesOn) in
      subst (GoesOn policy) e goes refl

module _ (policy : ClassPolicy) (s : Calling) (b : Bounded policy 1 s.call) where
  attempted-Bounded :
      (tried : FlightResult) (verdict : Option Cause) (r : RetryBudget)
      → Bounded policy 0 (attempted tried verdict (record s { ring = r })).call
  unfolding attempted
  attempted-Bounded tried verdict r = record {
    same_policy = b.same_policy;
    tried = omega (arith, b.tried);
    throttles = b.throttles;
    waits = b.waits;
  }

  spent-Bounded : (r : RetryBudget) → Bounded policy 0 (spent (record s { ring = r })).call
  unfolding spent
  spent-Bounded r = record {
    same_policy = b.same_policy;
    tried = omega (arith, b.tried);
    throttles = b.throttles;
    waits = b.waits;
  }

Reaches-Bounded :
    {policy : ClassPolicy} {ring : RetryBudget} {rejections : ℕ} {phase : Phase} {s : Calling}
    → 1 ≤ policy.max_attempts
    → Reaches policy ring rejections phase s
    → Bounded policy (slack phase) s.call
unfolding slack
Reaches-Bounded h start = record {
  same_policy = refl;
  tried = omega (arith, h);
  throttles = omega arith;
  waits = omega arith;
}
Reaches-Bounded {policy = policy} h (tries {s} other now tried verdict r sound) =
    let b = Reaches-Bounded h r in
    attempt-cases (λ (z : Calling). Bounded policy 0 z.call) now tried verdict
      (record s { ring = other }) (attempted-Bounded policy s b tried verdict)
      (spent-Bounded policy s b)
Reaches-Bounded {policy = policy} h (retries {s} deadline now random c r again e) =
    stop-Bounded policy deadline now random s.call (Reaches-Bounded h r) c e

-- A stop that lets the call go on counts a patient retry and its wait, and no other.
Counts : ModelCall → Bool × ModelCall → Type 0
Counts c x =
    x.0 ≡ false
    → (x.1.throttled ≡ one_if (patient c) + c.throttled)
      × (x.1.throttle_wait ≡ (if patient c then x.1.delay + c.throttle_wait else c.throttle_wait))

stop-Counts :
    (deadline : Option ℕ) (now random : ℕ) (c : ModelCall) → Counts c (stop deadline now random c)
unfolding Counts stop stop_patient stop_plain
stop-Counts deadline now random c = ground arith

-- The counters of a call are its patient waits and their sum.
record Counted (waits : List Wait) (c : ModelCall) : Type 0 where
  pub number : c.throttled ≡ patient_waits waits
  pub sum : c.throttle_wait ≡ patient_time waits

retries-Counted :
    (deadline : Option ℕ) (now random : ℕ) (c c' : ModelCall) (waits : List Wait)
    → stop deadline now random c ≡ (false, c')
    → Counted waits c
    → Counted (record { patiently = patient c; time = c'.delay } ∷ waits) c'
unfolding Counts patient_waits patient_time
retries-Counted deadline now random c c' waits e h =
    let counts : Counts c (false, c') = subst (Counts c) e (stop-Counts deadline now random c) in
    let (one_more, longer) = counts refl in
    record { number = ground (arith, one_more, h.number); sum = ground (arith, longer, h.sum) }

Reaches-Counted :
    {policy : ClassPolicy} {ring : RetryBudget} {rejections : ℕ} {phase : Phase} {s : Calling}
    → (r : Reaches policy ring rejections phase s) → Counted (waits_of r) s.call
unfolding waits_of patient_waits patient_time attempted spent
Reaches-Counted start = record { number = refl; sum = refl }
Reaches-Counted (tries {s} other now tried verdict r sound) =
    let h = Reaches-Counted r in
    attempt-cases (λ (z : Calling). Counted (waits_of r) z.call) now tried verdict
      (record s { ring = other }) (λ q. record { number = h.number; sum = h.sum })
      (λ q. record { number = h.number; sum = h.sum })
Reaches-Counted (retries {s} deadline now random c r again e) =
    retries-Counted deadline now random s.call c (waits_of r) e (Reaches-Counted r)

-- However its attempts end, a call of a class with at least one attempt makes at most its class's
-- attempts and, beside them, one for each wait that is patient; these waits are at most its class's
-- throttled retries, and together they last no longer than maxThrottleWait.
pub call_bounds :
    (policy : ClassPolicy) (ring : RetryBudget) (rejections : ℕ) (phase : Phase) (s : Calling)
    → 1 ≤ policy.max_attempts
    → (r : Reaches policy ring rejections phase s)
    → let waits = waits_of r in
      (s.call.attempts ≤ policy.max_attempts + policy.throttled_retries)
      × (s.call.attempts ≤ policy.max_attempts + patient_waits waits)
      × (patient_waits waits ≤ policy.throttled_retries)
      × (patient_time waits ≤ policy.max_throttle_wait)
call_bounds policy ring rejections phase s h r =
    let b = Reaches-Bounded h r in
    let counted = Reaches-Counted r in
    (
      omega (arith, b.tried, b.throttles),
      omega (arith, b.tried, counted.number),
      omega (arith, b.throttles, counted.number),
      omega (arith, b.waits, counted.sum),
    )
