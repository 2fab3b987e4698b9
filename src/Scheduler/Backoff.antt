-- ===== src/Scheduler/Backoff.antt =====
-- internal/aml/scheduler.go, retryDelay: how long a user backs off.
use mnemon.Prelude.{
  ℕ, ◌+◌, ◌-◌, ◌*◌, ◌^◌, ◌≤◌, ◌<◌, min, leb, if◌then◌else◌, arith, Bool-cases, inl, inr,
}
use mnemon.Scheduler.State.{retry_base, retry_max, second}
use mnemon.Scheduler.Locked.{retry_delay, unit_draws, round_div}

-- The doubling, before the jitter: retryBase × 2ⁿ⁻¹, up to retryMax.
abbrev pub doubled : ℕ → ℕ
doubled failures = if leb failures 10 then retry_base * 2 ^ (failures - 1) else retry_max

-- A wait of 5 p that is jittered by 0.8 + k j, to the nearest whole number, for a k of 0.2 or 0.4.
jittered_bounds :
    (p j : ℕ)
    → p * j ≤ p * unit_draws
    → (4 * p ≤ round_div (5 * p * (8 * unit_draws + 4 * j)) (10 * unit_draws))
      × (round_div (5 * p * (8 * unit_draws + 4 * j)) (10 * unit_draws) ≤ 6 * p)
jittered_bounds p j h = (omega arith, omega arith)

capped_bounds :
    (j : ℕ)
    → j < unit_draws
    → (480 * second ≤ round_div (retry_max * (8 * unit_draws + 2 * j)) (10 * unit_draws))
      × (round_div (retry_max * (8 * unit_draws + 2 * j)) (10 * unit_draws) ≤ retry_max)
capped_bounds j h = (omega arith, omega arith)

-- Whatever the jitter, a draw in [0, 1), the delay after a number of failures is at least 80% of the
-- doubled wait or of retryMax, whichever is less, and at most 120% of the doubled wait and retryMax.
pub retry_delay_bounds :
    (failures jitter : ℕ)
    → jitter < unit_draws
    → let delay = retry_delay failures jitter in
      (4 * min (doubled failures) retry_max ≤ 5 * delay)
      × (5 * delay ≤ 6 * doubled failures)
      × (delay ≤ retry_max)
unfolding retry_delay
retry_delay_bounds failures jitter h = elim (Bool-cases (leb failures 10)) [
  | inl small ↦
      let p = 6 * second * 2 ^ (failures - 1) in
      let b = jittered_bounds p jitter (grind arith) in
      let c = capped_bounds jitter h in rw small (omega (arith, b, c))
  | inr large ↦
      let b = jittered_bounds (120 * second) jitter (omega arith) in
      let c = capped_bounds jitter h in rw large (omega (arith, b, c))
]
