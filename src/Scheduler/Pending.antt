-- ===== src/Scheduler/Pending.antt =====
-- internal/aml/scheduler.go: work that is notified is not lost. A user has work pending while it is
-- queued or backs off, or while it runs and Adds wrote since its job started.
use mnemon.Prelude.{
  ℕ, suc, ◌≡◌, refl, sym, ap, subst, ◌∙◌, Bool, true, false, ◌&&◌, ◌||◌, String, Option, none, some,
  List, [], ◌∷◌, ◌==◌, leb, count, arith, ◌⊎◌, inl, inr, Bool-cases, Option-cases, if-cases, eq_iff,
}
use mnemon.Prelude.Int.{ℤ, ◌+ℤ◌, int64}
use mnemon.Prelude.Store.{Ref, update}
use mnemon.Prelude.Dict.{lookup, lookup-insert}
use mnemon.Scheduler.State.{
  UserState, idle, queued, running, backing_off, is_queued, is_running, is_backing_off, SchedUser,
  Scheduler, JobError, JobOutcome, job_ok, job_failed, job_paused, job_canceled,
}
use mnemon.Scheduler.Locked.{
  enqueue_locked, unlock_changed, retry_due_rounds, retry_due_locked, first_unheld_locked,
}
use mnemon.Scheduler.Ops.{
  add_user, no_room, drop_notification, notify_state, notify_user, notify_found, notify, wait_leave,
  wait_idle, wait_round, add_waiter, wait_backlog, wait_again, hold_user, hold, release, drain,
  run_start, run_end, Next, start_job, pick, next, finish, measured,
}
use mnemon.Scheduler.System.Defs.{
  System, Step, notifies, waits, wakes, holds, releases, drains, starts, ends, picks, finishes,
  measures, sys_wait, sys_wake, sys_hold, sys_pick, sys_finish, take_job,
}
use mnemon.Scheduler.Outcomes.{Settled, finish-Settled}
use mnemon.Scheduler.System.Reach.{IsConsistent}
use mnemon.Scheduler.System.Registry.{busy}

abbrev pub pending : SchedUser → Bool
pending u = is_queued u.state || is_backing_off u.state || (is_running u.state && u.dirty)

-- `x` has work pending in `s`, and so it has in `t`.
abbrev Kept : Scheduler → Scheduler → Ref → Type 0
Kept s t x = pending (s.heap x) ≡ true → pending (t.heap x) ≡ true

module _ (x : Ref) where
  Kept-notify_state :
      (st : UserState) (now : ℕ) (added : ℤ) (r : Ref) (s : Scheduler)
      → (s.heap r).state ≡ st
      → Kept s (notify_state st now added r s) x
  unfolding notify_state
  Kept-notify_state idle now added r s e h = ground arith
  Kept-notify_state running now added r s e h = ground arith
  Kept-notify_state _ now added r s e h = h

  Kept-notify_user :
      (now : ℕ) (added : ℤ) (r : Ref) (s : Scheduler) → Kept s (notify_user now added r s) x
  unfolding notify_user
  Kept-notify_user now added r s h =
      Kept-notify_state (s.heap r).state now added r _ (ground arith) (ground arith)

  -- A user that has work is not the one that is added.
  Kept-add_user :
      (key : String) (s : Scheduler) → busy (s.heap s.next_ref) ≡ false → Kept s (add_user key s) x
  unfolding add_user
  Kept-add_user key s f h = ground arith

  Kept-notify_found :
      (found : Option Ref) (now : ℕ) (key : String) (added : ℤ) (s : Scheduler)
      → busy (s.heap s.next_ref) ≡ false
      → Kept s (notify_found found now key added s) x
  unfolding notify_found unlock_changed
  Kept-notify_found none now key added s f h =
      Kept-notify_user now added s.next_ref (add_user key s) (Kept-add_user key s f h)
  Kept-notify_found (some r) now key added s f h = Kept-notify_user now added r s h

  Kept-notify :
      (now : ℕ) (key : String) (added : ℤ) (s : Scheduler)
      → busy (s.heap s.next_ref) ≡ false
      → Kept s (notify now key added s).0 x
  unfolding notify drop_notification
  Kept-notify now key added s f h = elim (Bool-cases (no_room (lookup key s.users) s)) [
    | inl full ↦ rw full (ground arith)
    | inr room ↦ rw room (Kept-notify_found (lookup key s.users) now key added s f h)
  ]

  Kept-wait_round :
      (now : ℕ) (limit : ℤ) (r : Ref) (s : Scheduler) → Kept s (wait_round now limit r s).0 x
  unfolding wait_round wait_idle wait_leave
  Kept-wait_round now limit r s h = ground arith

  Kept-wait_backlog :
      (now : ℕ) (key : String) (limit : ℤ) (s : Scheduler)
      → Kept s (wait_backlog now key limit s).0 x
  unfolding wait_backlog
  Kept-wait_backlog now key limit s h = elim (Option-cases (lookup key s.users)) [
    | inl e ↦ rw (e, wait_backlog) h
    | inr (r, e) ↦
        rw (e, wait_backlog) (Kept-wait_round now limit r (add_waiter r s) (ground arith))
  ]

  Kept-wait_again :
      (ended : Bool) (now : ℕ) (limit : ℤ) (r : Ref) (s : Scheduler)
      → Kept s (wait_again ended now limit r s).0 x
  unfolding wait_again
  Kept-wait_again true now limit r s h = unfold wait_leave in ground arith
  Kept-wait_again false now limit r s h = Kept-wait_round now limit r s h

  Kept-hold :
      (key : String) (s : Scheduler) → busy (s.heap s.next_ref) ≡ false → Kept s (hold key s).0 x
  unfolding hold hold_user
  Kept-hold key s f h = elim (Option-cases (lookup key s.users)) [
    | inl e ↦
        let added = Kept-add_user key s f h in
        rw (e, hold) (unfold add_user in ground (arith, added))
    | inr (r, e) ↦ rw (e, hold) (ground arith)
  ]

  Kept-release : (r : Ref) (s : Scheduler) → Kept s (release r s) x
  unfolding release
  Kept-release r s h = ground arith

  Kept-measured : (key : String) (chars : ℤ) (s : Scheduler) → Kept s (measured key chars s) x
  unfolding measured
  Kept-measured key chars s h = ground arith

  Kept-rounds : (l : List Ref) (now : ℕ) (s : Scheduler) → Kept s (retry_due_rounds l now s) x
  unfolding retry_due_rounds enqueue_locked
  Kept-rounds [] now s h = h
  Kept-rounds (r ∷ rest) now s h =
      if-cases (λ (t : Scheduler). pending (t.heap x) ≡ true) (leb (s.heap r).retry_at now) _ _
        (λ _. Kept-rounds rest now (enqueue_locked r (record s { retries = rest })) (ground arith))
        (λ _. h)

  Kept-finish_other :
      (cut : Bool) (measure : ℤ) (err : Option JobError) (now jitter : ℕ) (r : Ref) (s : Scheduler)
      → (r == x) ≡ false
      → (finish cut measure err now jitter r s).0.heap x ≡ s.heap x
  unfolding finish
  Kept-finish_other true measure err now jitter r s e = ground arith
  Kept-finish_other false measure none now jitter r s e = ground arith
  Kept-finish_other false measure (some err) now jitter r s e = ground arith

-- A job's end leaves the work that was notified while it ran pending.
Settled-pending :
    {u v : SchedUser} {outcome : JobOutcome} {measure : ℤ} {now jitter : ℕ}
    → Settled u v outcome measure now jitter
    → u.dirty ≡ true
    → pending v ≡ true
Settled-pending {outcome = job_ok} st d = ground arith
Settled-pending {outcome = job_failed} st d = ground arith
Settled-pending {outcome = job_paused} st d = ground arith
Settled-pending {outcome = job_canceled} st d = ground arith

Kept-finish :
    (cut : Bool) (measure : ℤ) (err : Option JobError) (now jitter : ℕ) (q x : Ref) (s : Scheduler)
    → (s.heap q).state ≡ running
    → Kept s (finish cut measure err now jitter q s).0 x
Kept-finish cut measure err now jitter q x s run h = elim (Bool-cases (q == x)) [
  | inl same ↦
      let t = (finish cut measure err now jitter q s).0 in
      let p : q ≡ x = ground arith in
      let here : pending (s.heap q) ≡ true = subst (λ z. pending (s.heap z) ≡ true) (sym p) h in
      subst (λ z. pending (t.heap z) ≡ true) p
        (Settled-pending (finish-Settled cut measure err now jitter q s) (ground arith))
  | inr other ↦
      subst (λ (v : SchedUser). pending v ≡ true)
        (sym (Kept-finish_other x cut measure err now jitter q s other)) h
]

-- The user's work is still pending, or a job of it has started.
abbrev Served : Ref → List Ref → Scheduler × Next → Type 0
Served x jobs a = (pending (a.0.heap x) ≡ true) ⊎ (count x (take_job a.1 jobs) ≡ suc (count x jobs))

Served-pick :
    (x : Ref) (jobs : List Ref) (found : Option Ref) (now : ℕ) (s : Scheduler)
    → pending (s.heap x) ≡ true
    → Served x jobs (pick found now s)
unfolding pick start_job
Served-pick x jobs none now s h = inl h
Served-pick x jobs (some q) now s h = elim (Bool-cases (q == x)) [
  | inl same ↦ inr (ground arith)
  | inr other ↦ inl (ground arith)
]

Served-next :
    (x : Ref) (jobs : List Ref) (now : ℕ) (s : Scheduler)
    → pending (s.heap x) ≡ true
    → Served x jobs (next now s)
unfolding next
Served-next x jobs now s h =
    if-cases {A = Scheduler × Next} (Served x jobs) s.draining _ _ (λ _. inl h)
      (λ _.
        Served-pick x jobs (first_unheld_locked (retry_due_locked now s)) now
          (retry_due_locked now s) (Kept-rounds x s.retries now s h))

-- From a consistent state, every step leaves a user's pending work pending, or starts a job of the
-- user.
pub Step-pending :
    {x y : System}
    → Step x y
    → IsConsistent x
    → (r : Ref) → pending (x.sched.heap r) ≡ true
    → (pending (y.sched.heap r) ≡ true) ⊎ (count r y.jobs ≡ suc (count r x.jobs))
unfolding sys_wait sys_wake sys_hold sys_pick sys_finish
Step-pending (notifies x now key added) c r h =
    inl
      (Kept-notify r now key added x.sched (c.inv.registry.fresh x.sched.next_ref (omega arith)) h)
Step-pending (waits x now key limit) c r h = inl (Kept-wait_backlog r now key limit x.sched h)
Step-pending (wakes x ended before w after e) c r h =
    inl (Kept-wait_again r ended w.now w.limit w.ref x.sched h)
Step-pending (holds x key) c r h =
    inl (Kept-hold r key x.sched (c.inv.registry.fresh x.sched.next_ref (omega arith)) h)
Step-pending (releases x q e) c r h = inl (Kept-release r q x.sched h)
Step-pending (drains x) c r h = inl (unfold drain in h)
Step-pending (starts x) c r h = inl (unfold run_start in ground arith)
Step-pending (ends x on empty) c r h = inl (unfold run_end in h)
Step-pending (picks x now on room) c r h = Served-next r x.jobs now x.sched h
Step-pending (finishes x cut measure err now jitter q e) c r h =
    inl (
      Kept-finish cut measure err now jitter q r x.sched (ground (arith, c.inv.placed.in_jobs q)) h)
Step-pending (measures x key chars) c r h = inl (Kept-measured r key chars x.sched h)

pending-notify_state :
    (st : UserState) (now : ℕ) (added : ℤ) (r : Ref) (s : Scheduler)
    → (s.heap r).state ≡ st
    → pending ((notify_state st now added r s).heap r) ≡ true
unfolding notify_state
pending-notify_state idle now added r s e = ground arith
pending-notify_state queued now added r s e = ground arith
pending-notify_state running now added r s e = ground arith
pending-notify_state backing_off now added r s e = ground arith

users-notify_state :
    (st : UserState) (now : ℕ) (added : ℤ) (r : Ref) (s : Scheduler)
    → (notify_state st now added r s).users ≡ s.users
unfolding notify_state
users-notify_state idle now added r s = refl
users-notify_state queued now added r s = refl
users-notify_state running now added r s = refl
users-notify_state backing_off now added r s = refl

notify_found-pending :
    (found : Option Ref) (now : ℕ) (key : String) (added : ℤ) (s : Scheduler)
    → lookup key s.users ≡ found
    → let t = notify_found found now key added s in
      (r : Ref) × (lookup key t.users ≡ some r) × (pending (t.heap r) ≡ true)
unfolding notify_found notify_user unlock_changed
notify_found-pending none now key added s e =
    let t = add_user key s in
    let v = record (t.heap s.next_ref) { backlog = int64 ((t.heap s.next_ref).backlog +ℤ added) } in
    let t' = record t { heap = update t.heap s.next_ref v } in
    (
      s.next_ref,
      ap (lookup key) (users-notify_state (t.heap s.next_ref).state now added s.next_ref t')
          ∙ unfold add_user in
            ground (arith, lookup-insert key key s.next_ref s.users, eq_iff key key),
      pending-notify_state (t.heap s.next_ref).state now added s.next_ref t' (ground arith),
    )
notify_found-pending (some r) now key added s e =
    let v = record (s.heap r) { backlog = int64 ((s.heap r).backlog +ℤ added) } in
    let s' = record s { heap = update s.heap r v } in
    (
      r,
      ap (lookup key) (users-notify_state (s.heap r).state now added r s') ∙ e,
      pending-notify_state (s.heap r).state now added r s' (ground arith),
    )

-- A notification for which there is room leaves a user of its key in the map, with work pending.
pub notify-pending :
    (now : ℕ) (key : String) (added : ℤ) (s : Scheduler)
    → no_room (lookup key s.users) s ≡ false
    → let t = (notify now key added s).0 in
      (r : Ref) × (lookup key t.users ≡ some r) × (pending (t.heap r) ≡ true)
unfolding notify
notify-pending now key added s room =
    rw room (notify_found-pending (lookup key s.users) now key added s refl)
