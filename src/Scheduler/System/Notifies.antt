-- ===== src/Scheduler/System/Notifies.antt =====
-- Notify, Hold, release, Measured, Drain and Run keep the invariant.
use mnemon.Prelude.{
  ℕ, ◌-◌, ◌<◌, ◌≡◌, refl, Bool, true, false, String, Option, none, some, List, [], ◌∷◌, leb, count,
  erase, arith, length-append, Option-cases, Bool-cases, if-cases, inl, inr, eq_iff,
}
use mnemon.Prelude.Int.{ℤ, ◌+ℤ◌, int64}
use mnemon.Prelude.Store.{Ref, update}
use mnemon.Prelude.Dict.{lookup, lookup-insert}
use mnemon.Scheduler.State.{
  UserState, idle, running, SchedUser, new_user, is_idle, Scheduler, LogLine,
}
use mnemon.Scheduler.Locked.{unlock_changed, active_locked, enqueue_locked}
use mnemon.Scheduler.Ops.{
  add_user, no_room, drop_notification, notify_state, notify_user, notify_found, notify, hold_user,
  hold, release, drain, run_start, run_end, measured,
}
use mnemon.Scheduler.System.Defs.{Waiter}
use mnemon.Scheduler.System.Places.{Placed-keep, Placed-enqueue}
use mnemon.Scheduler.System.Registry.{Registered-update, Registered-add}
use mnemon.Scheduler.System.Retries.{Ordered-keep, Ordered-absent}
use mnemon.Scheduler.System.Counts.{Counted-keep, Counted-hold, Counted-release, Calm-update}
use mnemon.Scheduler.System.Invariant.{Inv, SameWork, Inv-keep, Inv-forget}

module _ (s : Scheduler) (jobs holders : List Ref) (waiting : List Waiter) where
  -- An idle user of the map joins the queue.
  pub Inv-enqueue :
      Inv s jobs holders waiting
      → (r : Ref) → lookup (s.heap r).key s.users ≡ some r
      → (s.heap r).state ≡ idle
      → leb s.max_users (active_locked s) ≡ false
      → Inv (enqueue_locked r s) jobs holders waiting
  unfolding enqueue_locked active_locked
  Inv-enqueue i r here e room = record {
    placed = Placed-enqueue s.heap s.queue s.retries jobs s.running i.placed r _ e refl;
    registry = Registered-update s.heap s.users s.next_ref i.registry r _ here refl;
    counted = Counted-keep s.heap holders waiting i.counted r _ refl refl;
    calm = Calm-update s.heap i.calm r _ (λ h. cc) (λ h. cc);
    ordered = Ordered-keep s.heap r _ s.retries refl refl i.ordered;
    bounded = ground (arith, length-append s.queue (r ∷ []), i.bounded);
  }

  -- A new user of the map.
  pub Inv-add :
      Inv s jobs holders waiting
      → (key : String) → lookup key s.users ≡ none
      → Inv (add_user key s) jobs holders waiting
  unfolding add_user
  Inv-add i key missing = record {
    placed =
        Placed-keep s.heap s.queue s.retries jobs s.running i.placed s.next_ref (new_user key)
          (ground (arith, i.registry.fresh s.next_ref));
    registry = Registered-add s.heap s.users s.next_ref i.registry key missing;
    counted =
        Counted-keep s.heap holders waiting i.counted s.next_ref (new_user key)
          (ground (arith, i.registry.fresh s.next_ref))
          (ground (arith, i.registry.fresh s.next_ref));
    calm = Calm-update s.heap i.calm s.next_ref (new_user key) (λ h. refl) (λ h. cc);
    ordered =
        Ordered-absent s.heap s.next_ref (new_user key) s.retries
          (ground (arith, i.placed.in_retries s.next_ref, i.registry.fresh s.next_ref)) i.ordered;
    bounded = i.bounded;
  }

  pub lookup-add_user : (key : String) → lookup key (add_user key s).users ≡ some s.next_ref
  unfolding add_user
  lookup-add_user key = ground (arith, lookup-insert key key s.next_ref s.users, eq_iff key key)

-- What update reads back.
pub update_self {ℓ} : {A : Type ℓ} (heap : Ref → A) (r : Ref) (a : A) → update heap r a r ≡ a
update_self heap r a = ground arith

pub SameWork-refl : (u : SchedUser) → SameWork u u
SameWork-refl u = record {
  key = refl;
  state = refl;
  holds = refl;
  waiters = refl;
  failures = refl;
  retry_at = refl;
  seq = refl;
}

module _ (jobs holders : List Ref) (waiting : List Waiter) where
  notify_state-Inv :
      (st : UserState) (now : ℕ) (added : ℤ) (r : Ref) (s : Scheduler)
      → Inv s jobs holders waiting
      → lookup (s.heap r).key s.users ≡ some r
      → (s.heap r).state ≡ st
      → (is_idle st ≡ true → leb s.max_users (active_locked s) ≡ false)
      → Inv (notify_state st now added r s) jobs holders waiting
  unfolding notify_state active_locked
  notify_state-Inv idle now added r s i here e room =
      let u = record (s.heap r) { since = now } in
      Inv-enqueue (record s { heap = update s.heap r u }) jobs holders waiting
        (Inv-keep s jobs holders waiting i r u (record {
          key = refl;
          state = refl;
          holds = refl;
          waiters = refl;
          failures = refl;
          retry_at = refl;
          seq = refl;
        }))
        r (ground arith) (ground arith) (room refl)
  notify_state-Inv running now added r s i here e room =
      Inv-keep s jobs holders waiting i r _ (record {
        key = refl;
        state = refl;
        holds = refl;
        waiters = refl;
        failures = refl;
        retry_at = refl;
        seq = refl;
      })
  notify_state-Inv _ now added r s i here e room = i

  notify_user-Inv :
      (now : ℕ) (added : ℤ) (r : Ref) (s : Scheduler)
      → Inv s jobs holders waiting
      → lookup (s.heap r).key s.users ≡ some r
      → (is_idle (s.heap r).state ≡ true → leb s.max_users (active_locked s) ≡ false)
      → Inv (notify_user now added r s) jobs holders waiting
  unfolding notify_user active_locked
  notify_user-Inv now added r s i here room =
      let u = record (s.heap r) { backlog = int64 ((s.heap r).backlog +ℤ added) } in
      notify_state-Inv (s.heap r).state now added r (record s { heap = update s.heap r u })
        (Inv-keep s jobs holders waiting i r u (record {
          key = refl;
          state = refl;
          holds = refl;
          waiters = refl;
          failures = refl;
          retry_at = refl;
          seq = refl;
        }))
        (ground arith) (ground arith) room

  notify_found-Inv :
      (found : Option Ref) (now : ℕ) (key : String) (added : ℤ) (s : Scheduler)
      → Inv s jobs holders waiting
      → lookup key s.users ≡ found
      → no_room found s ≡ false
      → Inv (notify_found found now key added s) jobs holders waiting
  unfolding notify_found no_room unlock_changed
  notify_found-Inv none now key added s i e room =
      notify_user-Inv now added s.next_ref (add_user key s) (Inv-add s jobs holders waiting i key e)
        (unfold add_user in
          ground (arith, lookup-insert key key s.next_ref s.users, eq_iff key key))
        (unfold add_user active_locked in λ _. room)
  notify_found-Inv (some r) now key added s i e room =
      notify_user-Inv now added r s i (ground (arith, i.registry.resolves key r))
        (λ h. ground arith)

  drop_notification-Inv :
      (now : ℕ) (key : String) (s : Scheduler)
      → Inv s jobs holders waiting
      → Inv (drop_notification now key s).0 jobs holders waiting
  unfolding drop_notification
  drop_notification-Inv now key s i =
      if-cases {A = Scheduler × Option LogLine} (λ a. Inv a.0 jobs holders waiting) _ _ _ (λ _. i)
        (λ _. i)

  pub notify-Inv :
      (now : ℕ) (key : String) (added : ℤ) (s : Scheduler)
      → Inv s jobs holders waiting
      → Inv (notify now key added s).0 jobs holders waiting
  unfolding notify
  notify-Inv now key added s i = elim (Bool-cases (no_room (lookup key s.users) s)) [
    | inl full ↦ rw full (drop_notification-Inv now key s i)
    | inr room ↦ rw room (notify_found-Inv (lookup key s.users) now key added s i refl room)
  ]

  pub measured-Inv :
      (key : String) (chars : ℤ) (s : Scheduler)
      → Inv s jobs holders waiting
      → Inv (measured key chars s) jobs holders waiting
  unfolding measured unlock_changed
  measured-Inv key chars s i = elim (Option-cases (lookup key s.users)) [
    | inl e ↦ rw (e, measured) i
    | inr (r, e) ↦
        rw (e, measured)
          (if-cases (λ a. Inv a jobs holders waiting) _ _ _ (λ _. i)
            (λ _. Inv-keep s jobs holders waiting i r _ (record {
              key = refl;
              state = refl;
              holds = refl;
              waiters = refl;
              failures = refl;
              retry_at = refl;
              seq = refl;
            })))
  ]

  hold_user-Inv :
      (r : Ref) (s : Scheduler)
      → Inv s jobs holders waiting
      → lookup (s.heap r).key s.users ≡ some r
      → Inv (hold_user r s) jobs (r ∷ holders) waiting
  unfolding hold_user
  hold_user-Inv r s i here = record {
    placed = Placed-keep s.heap s.queue s.retries jobs s.running i.placed r _ refl;
    registry = Registered-update s.heap s.users s.next_ref i.registry r _ here refl;
    counted = Counted-hold s.heap holders waiting i.counted r _ refl refl;
    calm = Calm-update s.heap i.calm r _ (i.calm.rested r) (i.calm.failing r);
    ordered = Ordered-keep s.heap r _ s.retries refl refl i.ordered;
    bounded = i.bounded;
  }

  pub hold-Inv :
      (key : String) (s : Scheduler)
      → Inv s jobs holders waiting
      → Inv (hold key s).0 jobs ((hold key s).1 ∷ holders) waiting
  unfolding hold
  hold-Inv key s i = elim (Option-cases (lookup key s.users)) [
    | inl e ↦
        rw (e, hold)
          (hold_user-Inv s.next_ref (add_user key s) (Inv-add s jobs holders waiting i key e) (
            unfold add_user in
            ground (arith, lookup-insert key key s.next_ref s.users, eq_iff key key)))
    | inr (r, e) ↦ rw (e, hold) (hold_user-Inv r s i (ground (arith, i.registry.resolves key r)))
  ]

  pub release-Inv :
      (r : Ref) (s : Scheduler)
      → Inv s jobs holders waiting
      → 0 < count r holders
      → Inv (release r s) jobs (erase holders r) waiting
  unfolding release unlock_changed
  release-Inv r s i e =
      let u = record (s.heap r) { holds = (s.heap r).holds - 1 } in
      let here : lookup (s.heap r).key s.users ≡ some r =
        i.registry.registered r (ground (arith, i.counted.held r)) in
      let next =
        Inv-forget (record s { heap = update s.heap r u }) jobs (erase holders r) waiting in
      next
        (record {
          placed = Placed-keep s.heap s.queue s.retries jobs s.running i.placed r u refl;
          registry = Registered-update s.heap s.users s.next_ref i.registry r u here refl;
          counted = Counted-release s.heap holders waiting i.counted r u refl refl e;
          calm = Calm-update s.heap i.calm r u (i.calm.rested r) (i.calm.failing r);
          ordered = Ordered-keep s.heap r _ s.retries refl refl i.ordered;
          bounded = i.bounded;
        })
        r

  pub drain-Inv : (s : Scheduler) → Inv s jobs holders waiting → Inv (drain s) jobs holders waiting
  unfolding drain unlock_changed
  drain-Inv s i = i

  pub run_start-Inv :
      (s : Scheduler) → Inv s jobs holders waiting → Inv (run_start s).0 jobs holders waiting
  unfolding run_start
  run_start-Inv s i =
      if-cases {A = Scheduler × Bool} (λ a. Inv a.0 jobs holders waiting) _ _ _ (λ _. i) (λ _. i)

  pub run_end-Inv :
      (s : Scheduler) → Inv s jobs holders waiting → Inv (run_end s) jobs holders waiting
  unfolding run_end unlock_changed
  run_end-Inv s i = i
