-- ===== src/Resilience/Retries.antt =====
-- internal/memoryagent/resilience.go, retryBudget: the ring that bounds a provider's retries.
use mnemon.Prelude.{
  ℕ, zero, suc, ◌+◌, ◌-◌, ◌*◌, ◌%◌, Bool, true, false, ◌&&◌, not, ltb, leb, ◌==◌, if◌then◌else◌,
}
use mnemon.Prelude.Store.{update}

pub record RetrySlot : Type 0 where
  pub second : ℕ
  pub calls : ℕ
  pub retries : ℕ

-- The slots, by their index.
abbrev pub RetryBudget : Type 0
RetryBudget = ℕ → RetrySlot

abbrev pub retry_window : ℕ
retry_window = 60

abbrev pub retry_floor : ℕ
retry_floor = 5

-- A ring as it starts.
abbrev pub empty_ring : RetryBudget
empty_ring i = record { second = 0; calls = 0; retries = 0 }

-- slot: now's slot, emptied when it counted another second.
unfoldable pub slot : ℕ → RetryBudget → RetrySlot
slot now b =
    let s = b (now % retry_window) in
    if s.second == now then s else record { second = now; calls = 0; retries = 0 }

-- called.
unfoldable pub called : ℕ → RetryBudget → RetryBudget
unfolding slot
called now b =
    let s = slot now b in update b (now % retry_window) (record s { calls = s.calls + 1 })

-- Whether the window at `now` still counts a slot.
abbrev pub counts : ℕ → RetrySlot → Bool
counts now s = ltb (now - s.second) retry_window

-- The sums over the first `n` slots that the window counts.
abbrev pub calls_in : ℕ → ℕ → RetryBudget → ℕ
calls_in zero now b = 0
calls_in (suc n) now b = (if counts now (b n) then (b n).calls else 0) + calls_in n now b

abbrev pub retries_in : ℕ → ℕ → RetryBudget → ℕ
retries_in zero now b = 0
retries_in (suc n) now b = (if counts now (b n) then (b n).retries else 0) + retries_in n now b

-- Whether a retry is left, given the window's sums: float64(retries + 1) > 0.2 × float64(calls) is
-- 5 (retries + 1) > calls.
unfoldable pub has_retry : RetrySlot → ℕ → ℕ → Bool
has_retry current calls retries =
    not (leb retry_floor current.retries && ltb calls (5 * (retries + 1)))

-- allow: whether a retry was left, and the ring, whose slot of the moment it has emptied either way.
unfoldable pub allow : ℕ → RetryBudget → Bool × RetryBudget
unfolding slot has_retry
allow now b =
    let current = slot now b in
    let at_now = update b (now % retry_window) current in
    if has_retry current (calls_in retry_window now at_now) (retries_in retry_window now at_now)
    then (
      true,
      update at_now (now % retry_window) (record current { retries = current.retries + 1 }),
    )
    else (false, at_now)
