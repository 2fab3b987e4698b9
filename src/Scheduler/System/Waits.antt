-- ===== src/Scheduler/System/Waits.antt =====
-- WaitBacklog keeps the invariant.
use mnemon.Prelude.{
  ℕ, suc, ◌-◌, ◌≡◌, refl, Bool, true, false, String, Option, some, List, ◌∷◌, ◌++◌, leb, arith,
  Option-cases, Bool-cases, inl, inr,
}
use mnemon.Prelude.Int.{ℤ}
use mnemon.Prelude.Store.{Ref, update}
use mnemon.Prelude.Dict.{lookup}
use mnemon.Scheduler.State.{is_idle, Scheduler}
use mnemon.Scheduler.Locked.{unlock_changed, active_locked, enqueue_locked}
use mnemon.Scheduler.Ops.{must_wait, wait_leave, wait_idle, wait_round, wait_backlog, wait_again}
use mnemon.Scheduler.System.Defs.{Waiter, park, park_found}
use mnemon.Scheduler.System.Places.{Placed-keep}
use mnemon.Scheduler.System.Registry.{Registered-update}
use mnemon.Scheduler.System.Retries.{Ordered-keep}
use mnemon.Scheduler.System.Counts.{Counted-wait, Counted-leave, Counted-move, Calm-update}
use mnemon.Scheduler.System.Invariant.{Inv, SameWork, Inv-keep, Inv-forget}
use mnemon.Scheduler.System.Notifies.{Inv-enqueue}

module _ (jobs holders : List Ref) (waiting : List Waiter) where
  -- `w` is a waiter that is about to return.
  wait_leave-Inv :
      (w : Waiter) (s : Scheduler)
      → Inv s jobs holders (w ∷ waiting)
      → Inv (wait_leave w.ref s) jobs holders waiting
  unfolding wait_leave
  wait_leave-Inv w s i =
      let r = w.ref in
      let u = record (s.heap r) { waiters = (s.heap r).waiters - 1 } in
      let here : lookup (s.heap r).key s.users ≡ some r =
        i.registry.registered r (ground (arith, i.counted.awaited r)) in
      Inv-forget (record s { heap = update s.heap r u }) jobs holders waiting
        (record {
          placed = Placed-keep s.heap s.queue s.retries jobs s.running i.placed r u refl;
          registry = Registered-update s.heap s.users s.next_ref i.registry r u here refl;
          counted = Counted-leave s.heap holders w waiting i.counted u refl refl;
          calm = Calm-update s.heap i.calm r u (i.calm.rested r) (i.calm.failing r);
          ordered = Ordered-keep s.heap r _ s.retries refl refl i.ordered;
          bounded = i.bounded;
        })
        r

-- The callers after a part of WaitBacklog that the waiter `w` ran.
abbrev parked : Waiter → Scheduler × Option ℕ → List Waiter → List Waiter
parked w result waiting = park w.ref w.now w.limit result.1 waiting

module _ (jobs holders : List Ref) (waiting : List Waiter) (w : Waiter) where
  -- The channel that a waiter waits for is nothing to the invariant.
  rechannel :
      (s : Scheduler) (channel : ℕ)
      → Inv s jobs holders (w ∷ waiting)
      → Inv s jobs holders (record w { channel = channel } ∷ waiting)
  rechannel s channel i = record {
    placed = i.placed;
    registry = i.registry;
    counted = record { held = i.counted.held; awaited = i.counted.awaited };
    calm = i.calm;
    ordered = i.ordered;
    bounded = i.bounded;
  }

  wait_idle-Inv :
      (s : Scheduler)
      → Inv s jobs holders (w ∷ waiting)
      → is_idle (s.heap w.ref).state ≡ true
      → Inv (wait_idle w.now w.ref s).0 jobs holders (parked w (wait_idle w.now w.ref s) waiting)
  unfolding wait_idle unlock_changed
  wait_idle-Inv s i e = elim (Bool-cases (leb s.max_users (active_locked s))) [
    | inl full ↦ rw full (wait_leave-Inv jobs holders waiting w s i)
    | inr room ↦
        let r = w.ref in
        let u = record (s.heap r) { since = w.now } in
        let s' = record s { heap = update s.heap r u } in
        let here : lookup (s.heap r).key s.users ≡ some r =
          i.registry.registered r (ground (arith, i.counted.awaited r)) in
        let same : SameWork u (s.heap r) = record {
          key = refl;
          state = refl;
          holds = refl;
          waiters = refl;
          failures = refl;
          retry_at = refl;
          seq = refl;
        } in
        rw room (
          rechannel (enqueue_locked r s') (suc s.changed) (
            Inv-enqueue s' jobs holders (w ∷ waiting)
              (Inv-keep s jobs holders (w ∷ waiting) i r u same) r (ground arith) (ground arith)
              (unfold active_locked in room)))
  ]

  wait_round-Inv :
      (s : Scheduler)
      → Inv s jobs holders (w ∷ waiting)
      → let a = wait_round w.now w.limit w.ref s in Inv a.0 jobs holders (parked w a waiting)
  unfolding wait_round
  wait_round-Inv s i = elim (Bool-cases (must_wait w.limit w.ref s)) [
    | inl wait ↦ elim (Bool-cases (is_idle (s.heap w.ref).state)) [
      | inl e ↦ rw (wait, e) (wait_idle-Inv s i e)
      | inr e ↦ rw (wait, e) (rechannel s s.changed i)
    ]
    | inr done ↦ rw done (wait_leave-Inv jobs holders waiting w s i)
  ]

  wait_again-Inv :
      (ended : Bool) (s : Scheduler)
      → Inv s jobs holders (w ∷ waiting)
      → let a = wait_again ended w.now w.limit w.ref s in Inv a.0 jobs holders (parked w a waiting)
  unfolding wait_again
  wait_again-Inv true s i = wait_leave-Inv jobs holders waiting w s i
  wait_again-Inv false s i = wait_round-Inv s i

-- A waiter goes on.
pub wakes-Inv :
    (jobs holders : List Ref) (before : List Waiter) (w : Waiter) (after : List Waiter)
    (ended : Bool) (s : Scheduler)
    → Inv s jobs holders (before ++ (w ∷ after))
    → let a = wait_again ended w.now w.limit w.ref s in
      Inv a.0 jobs holders (parked w a (before ++ after))
wakes-Inv jobs holders before w after ended s i =
    wait_again-Inv jobs holders (before ++ after) w ended s (record {
      placed = i.placed;
      registry = i.registry;
      counted = Counted-move s.heap holders before w after i.counted;
      calm = i.calm;
      ordered = i.ordered;
      bounded = i.bounded;
    })

module _ (jobs holders : List Ref) (waiting : List Waiter) (now : ℕ) (limit : ℤ)
    (s : Scheduler) where
  wait_found-Inv :
      (r : Ref)
      → Inv s jobs holders waiting
      → lookup (s.heap r).key s.users ≡ some r
      → let u = record (s.heap r) { waiters = suc (s.heap r).waiters } in
        let a = wait_round now limit r (record s { heap = update s.heap r u }) in
        Inv a.0 jobs holders (park r now limit a.1 waiting)
  wait_found-Inv r i here =
      let w : Waiter = record { ref = r; limit = limit; now = now; channel = 0 } in
      let u = record (s.heap r) { waiters = suc (s.heap r).waiters } in
      wait_round-Inv jobs holders waiting w (record s { heap = update s.heap r u })
        (record {
          placed = Placed-keep s.heap s.queue s.retries jobs s.running i.placed r u refl;
          registry = Registered-update s.heap s.users s.next_ref i.registry r u here refl;
          counted = Counted-wait s.heap holders waiting i.counted r u w refl refl refl;
          calm = Calm-update s.heap i.calm r u (i.calm.rested r) (i.calm.failing r);
          ordered = Ordered-keep s.heap r _ s.retries refl refl i.ordered;
          bounded = i.bounded;
        })

  pub waits-Inv :
      (key : String)
      → Inv s jobs holders waiting
      → let a = wait_backlog now key limit s in
        Inv a.0 jobs holders (park_found (lookup key s.users) now limit a.1 waiting)
  unfolding wait_backlog
  waits-Inv key i = elim (Option-cases (lookup key s.users)) [
    | inl e ↦ rw (e, wait_backlog) i
    | inr (r, e) ↦
        rw (e, wait_backlog) (wait_found-Inv r i (ground (arith, i.registry.resolves key r)))
  ]
