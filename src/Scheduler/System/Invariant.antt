-- ===== src/Scheduler/System/Invariant.antt =====
-- The invariant of the system.
use mnemon.Prelude.{ℕ, ◌+◌, ◌≤◌, ◌≡◌, String, List, length, arith}
use mnemon.Prelude.Store.{Ref, update}
use mnemon.Scheduler.State.{SchedUser, Scheduler}
use mnemon.Scheduler.Locked.{forget_locked}
use mnemon.Scheduler.System.Defs.{Waiter}
use mnemon.Scheduler.System.Places.{Placed, Placed-keep}
use mnemon.Scheduler.System.Registry.{Registered, Registered-keep, Registered-forget}
use mnemon.Scheduler.System.Retries.{Ordered, Ordered-keep}
use mnemon.Scheduler.System.Counts.{Counted, Counted-keep, Calm, Calm-update}

pub record Consistent (heap : Ref → SchedUser) (users : List (String × Ref)) (next_ref : Ref)
    (queue retries : List Ref) (running max_users : ℕ) (jobs holders : List Ref)
    (waiting : List Waiter) : Type 0 where
  pub placed : Placed heap queue retries jobs running
  pub registry : Registered heap users next_ref
  pub counted : Counted heap holders waiting
  pub calm : Calm heap
  pub ordered : Ordered heap retries
  pub bounded : length queue + running + length retries ≤ max_users

abbrev pub Inv : Scheduler → List Ref → List Ref → List Waiter → Type 0
Inv s jobs holders waiting =
    Consistent s.heap s.users s.next_ref s.queue s.retries s.running s.max_users jobs holders
      waiting

-- The user changes in nothing that the invariant speaks of.
pub record SameWork (u v : SchedUser) : Type 0 where
  pub key : u.key ≡ v.key
  pub state : u.state ≡ v.state
  pub holds : u.holds ≡ v.holds
  pub waiters : u.waiters ≡ v.waiters
  pub failures : u.failures ≡ v.failures
  pub retry_at : u.retry_at ≡ v.retry_at
  pub seq : u.seq ≡ v.seq

module _ (s : Scheduler) (jobs holders : List Ref) (waiting : List Waiter) where
  pub Inv-keep :
      Inv s jobs holders waiting
      → (r : Ref) (u : SchedUser) → SameWork u (s.heap r)
      → Inv (record s { heap = update s.heap r u }) jobs holders waiting
  Inv-keep i r u same = record {
    placed = Placed-keep s.heap s.queue s.retries jobs s.running i.placed r u same.state;
    registry = Registered-keep s.heap s.users s.next_ref i.registry r u (ground arith) same.key;
    counted = Counted-keep s.heap holders waiting i.counted r u same.holds same.waiters;
    calm =
        Calm-update s.heap i.calm r u (λ h. ground (arith, i.calm.rested r))
          (λ h. ground (arith, i.calm.failing r));
    ordered = Ordered-keep s.heap r u s.retries same.retry_at same.seq i.ordered;
    bounded = i.bounded;
  }

  pub Inv-forget :
      Inv s jobs holders waiting → (r : Ref) → Inv (forget_locked r s) jobs holders waiting
  unfolding forget_locked
  Inv-forget i r = record {
    placed = i.placed;
    registry = Registered-forget s i.registry r;
    counted = i.counted;
    calm = i.calm;
    ordered = i.ordered;
    bounded = i.bounded;
  }
