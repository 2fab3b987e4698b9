-- ===== src/Scheduler/System/Counts.antt =====
-- The holds and the waiters that a user counts are the callers that hold it and wait on it; a user
-- that rests has no failures behind it, and one that backs off has some.
use mnemon.Prelude.{
  suc, ◌+◌, ◌-◌, ◌<◌, ◌≡◌, refl, true, List, [], ◌∷◌, ◌++◌, ◌==◌, count, erase, one_if, count-erase,
  arith,
}
use mnemon.Prelude.Store.{Ref, update}
use mnemon.Scheduler.State.{SchedUser, is_idle, is_backing_off}
use mnemon.Scheduler.System.Defs.{Waiter, count_waiting}

pub record Counted (heap : Ref → SchedUser) (holders : List Ref) (waiting : List Waiter)
    : Type 0 where
  pub held : (x : Ref) → (heap x).holds ≡ count x holders
  pub awaited : (x : Ref) → (heap x).waiters ≡ count_waiting x waiting

pub count_waiting-append :
    (x : Ref) (before : List Waiter) (w : Waiter) (after : List Waiter)
    → count_waiting x (before ++ (w ∷ after))
      ≡ one_if (w.ref == x) + count_waiting x (before ++ after)
count_waiting-append x [] w after = refl
count_waiting-append x (v ∷ before) w after = omega (arith, count_waiting-append x before w after)

module _ (heap : Ref → SchedUser) (holders : List Ref) (waiting : List Waiter)
    (c : Counted heap holders waiting) (r : Ref) (u : SchedUser) where
  pub Counted-keep :
      u.holds ≡ (heap r).holds
      → u.waiters ≡ (heap r).waiters
      → Counted (update heap r u) holders waiting
  Counted-keep h k = record {
    held = λ x. ground (arith, c.held x);
    awaited = λ x. ground (arith, c.awaited x);
  }

  pub Counted-hold :
      u.holds ≡ suc (heap r).holds
      → u.waiters ≡ (heap r).waiters
      → Counted (update heap r u) (r ∷ holders) waiting
  Counted-hold h k = record {
    held = λ x. ground (arith, c.held x);
    awaited = λ x. ground (arith, c.awaited x);
  }

  pub Counted-release :
      u.holds ≡ (heap r).holds - 1
      → u.waiters ≡ (heap r).waiters
      → 0 < count r holders
      → Counted (update heap r u) (erase holders r) waiting
  Counted-release h k e = record {
    held = λ x. ground (arith, c.held x, count-erase x r holders e);
    awaited = λ x. ground (arith, c.awaited x);
  }

  pub Counted-wait :
      (w : Waiter)
      → w.ref ≡ r
      → u.holds ≡ (heap r).holds
      → u.waiters ≡ suc (heap r).waiters
      → Counted (update heap r u) holders (w ∷ waiting)
  Counted-wait w same h k = record {
    held = λ x. ground (arith, c.held x);
    awaited = λ x. ground (arith, c.awaited x);
  }

-- The waiter `w` is no longer one.
pub Counted-leave :
    (heap : Ref → SchedUser) (holders : List Ref) (w : Waiter) (waiting : List Waiter)
    → Counted heap holders (w ∷ waiting)
    → (u : SchedUser) → u.holds ≡ (heap w.ref).holds
    → u.waiters ≡ (heap w.ref).waiters - 1
    → Counted (update heap w.ref u) holders waiting
Counted-leave heap holders w waiting c u h k = record {
  held = λ x. ground (arith, c.held x);
  awaited = λ x. ground (arith, c.awaited x);
}

-- The order of the waiters does not matter.
pub Counted-move :
    (heap : Ref → SchedUser) (holders : List Ref) (before : List Waiter) (w : Waiter)
    (after : List Waiter)
    → Counted heap holders (before ++ (w ∷ after))
    → Counted heap holders (w ∷ (before ++ after))
Counted-move heap holders before w after c = record {
  held = c.held;
  awaited = λ x. ground (arith, c.awaited x, count_waiting-append x before w after);
}

pub record Calm (heap : Ref → SchedUser) : Type 0 where
  pub rested : (x : Ref) → is_idle (heap x).state ≡ true → (heap x).failures ≡ 0
  pub failing : (x : Ref) → is_backing_off (heap x).state ≡ true → 0 < (heap x).failures

pub Calm-update :
    (heap : Ref → SchedUser)
    → Calm heap
    → (r : Ref) (u : SchedUser) → (is_idle u.state ≡ true → u.failures ≡ 0)
    → (is_backing_off u.state ≡ true → 0 < u.failures)
    → Calm (update heap r u)
Calm-update heap c r u h k = record {
  rested = λ x. ground (arith, c.rested x);
  failing = λ x. ground (arith, c.failing x);
}
