-- ===== src/Scheduler/Keeps.antt =====
-- internal/aml/scheduler.go: which users stay in the map of users over the operations, each of which may
-- end in forgetLocked.
use mnemon.Prelude.{
  ◌-◌, ℕ, ◌≡◌, refl, ap, ◌∙◌, Bool, true, false, not, ◌||◌, String, Option, none, some, List, [],
  ◌∷◌, leb, arith, inl, inr, Bool-cases, Option-cases, if-cases, eq_iff,
}
use mnemon.Prelude.Int.{ℤ, pos, leb_ℤ}
use mnemon.Prelude.Store.{Ref}
use mnemon.Prelude.Dict.{lookup, lookup-insert, lookup-delete}
use mnemon.Scheduler.State.{
  UserState, idle, queued, running, backing_off, SchedUser, Scheduler, JobError, is_idle,
}
use mnemon.Scheduler.Locked.{
  enqueue_locked, unlock_changed, retry_due_rounds, retry_due_locked, first_unheld_locked,
  forget_users, forget_locked, active_locked,
}
use mnemon.Scheduler.Ops.{
  add_user, no_room, drop_notification, notify_state, notify_user, notify_found, notify, wait_leave,
  must_wait, wait_idle, wait_round, add_waiter, wait_backlog, wait_again, hold_user, hold, release,
  drain, run_start, run_end, Next, start_job, pick, next, record_measure, settle_job, back_off,
  succeed, clear_dirty, finish, measured,
}
use mnemon.Scheduler.System.Defs.{
  System, Step, notifies, waits, wakes, holds, releases, drains, starts, ends, picks, finishes,
  measures, sys_wait, sys_wake, sys_hold, sys_pick, sys_finish,
}
use mnemon.Scheduler.System.Registry.{busy}

-- The user has work, is held or waited on, or has characters pending, by an estimate that is known or
-- not.
abbrev pub needed : SchedUser → Bool
needed u = busy u || not (leb_ℤ u.backlog (pos 0))

module _ (key : String) (x : Ref) where
  -- `x` is the key's user in `s`, and it is in `t` if it is needed there.
  Stays : Scheduler → Scheduler → Type 0
  Stays s t = lookup key s.users ≡ some x → needed (t.heap x) ≡ true → lookup key t.users ≡ some x

  same-Stays : (s t : Scheduler) → t.users ≡ s.users → Stays s t
  unfolding Stays
  same-Stays s t e h n = rw e h

  forget-Stays : (s t : Scheduler) (r : Ref) → t.users ≡ s.users → Stays s (forget_locked r t)
  unfolding Stays forget_locked forget_users
  forget-Stays s t r e h n =
      let was : lookup key t.users ≡ some x = rw e h in
      ground (arith, was, n, lookup-delete (t.heap r).key key t.users, eq_iff (t.heap r).key key)

  -- The user that is added is of a key that the map does not have.
  add_user-Stays :
      (k : String) (s : Scheduler)
      → lookup k s.users ≡ none
      → lookup key s.users ≡ some x
      → lookup key (add_user k s).users ≡ some x
  unfolding add_user
  add_user-Stays k s e h =
      ground (arith, h, e, lookup-insert k key s.next_ref s.users, eq_iff k key)

  users-notify_state :
      (st : UserState) (now : ℕ) (added : ℤ) (r : Ref) (s : Scheduler)
      → (notify_state st now added r s).users ≡ s.users
  unfolding notify_state
  users-notify_state idle now added r s = refl
  users-notify_state queued now added r s = refl
  users-notify_state running now added r s = refl
  users-notify_state backing_off now added r s = refl

  notify_found-Stays :
      (found : Option Ref) (now : ℕ) (k : String) (added : ℤ) (s : Scheduler)
      → lookup k s.users ≡ found
      → Stays s (notify_found found now k added s)
  unfolding Stays notify_found notify_user unlock_changed
  notify_found-Stays none now k added s e h n =
      ap (lookup key) (users-notify_state _ now added s.next_ref _) ∙ add_user-Stays k s e h
  notify_found-Stays (some r) now k added s e h n =
      ap (lookup key) (users-notify_state _ now added r _) ∙ h

  notify-Stays :
      (now : ℕ) (k : String) (added : ℤ) (s : Scheduler) → Stays s (notify now k added s).0
  unfolding Stays notify drop_notification
  notify-Stays now k added s = elim (Bool-cases (no_room (lookup k s.users) s)) [
    | inl full ↦ rw full (λ h n. ground (arith, h))
    | inr room ↦ rw room (notify_found-Stays (lookup k s.users) now k added s refl)
  ]

  wait_idle-Stays :
      (now : ℕ) (r : Ref) (s t : Scheduler) → t.users ≡ s.users → Stays s (wait_idle now r t).0
  unfolding wait_idle wait_leave enqueue_locked unlock_changed
  wait_idle-Stays now r s t e =
      if-cases {A = Scheduler × Option ℕ} (λ p. Stays s p.0) (leb t.max_users (active_locked t)) _ _
        (λ _. forget-Stays s _ r e) (λ _. same-Stays s _ e)

  wait_round-Stays :
      (now : ℕ) (limit : ℤ) (r : Ref) (s t : Scheduler)
      → t.users ≡ s.users
      → Stays s (wait_round now limit r t).0
  unfolding wait_round wait_leave
  wait_round-Stays now limit r s t e =
      if-cases {A = Scheduler × Option ℕ} (λ p. Stays s p.0) (not (must_wait limit r t)) _ _
        (λ _. forget-Stays s _ r e)
        (λ _.
          if-cases {A = Scheduler × Option ℕ} (λ p. Stays s p.0) (is_idle (t.heap r).state) _ _
            (λ _. wait_idle-Stays now r s t e) (λ _. same-Stays s t e))

  wait_backlog-Stays :
      (now : ℕ) (k : String) (limit : ℤ) (s : Scheduler) → Stays s (wait_backlog now k limit s).0
  unfolding Stays wait_backlog
  wait_backlog-Stays now k limit s = elim (Option-cases (lookup k s.users)) [
    | inl e ↦ rw (e, wait_backlog) (same-Stays s s refl)
    | inr (r, e) ↦
        rw (e, wait_backlog)
          (unfold add_waiter in wait_round-Stays now limit r s (add_waiter r s) refl)
  ]

  wait_again-Stays :
      (ended : Bool) (now : ℕ) (limit : ℤ) (r : Ref) (s : Scheduler)
      → Stays s (wait_again ended now limit r s).0
  unfolding wait_again wait_leave
  wait_again-Stays true now limit r s = forget-Stays s _ r refl
  wait_again-Stays false now limit r s = wait_round-Stays now limit r s s refl

  hold-Stays : (k : String) (s : Scheduler) → Stays s (hold k s).0
  unfolding Stays hold hold_user
  hold-Stays k s h n = elim (Option-cases (lookup k s.users)) [
    | inl e ↦ rw (e, hold) (add_user-Stays k s e h)
    | inr (r, e) ↦ rw (e, hold) h
  ]

  measured-Stays : (k : String) (chars : ℤ) (s : Scheduler) → Stays s (measured k chars s)
  unfolding Stays measured unlock_changed
  measured-Stays k chars s h n = ground (arith, h)

  rounds-users :
      (l : List Ref) (now : ℕ) (s : Scheduler) → (retry_due_rounds l now s).users ≡ s.users
  unfolding retry_due_rounds enqueue_locked
  rounds-users [] now s = refl
  rounds-users (r ∷ rest) now s =
      if-cases (λ (t : Scheduler). t.users ≡ s.users) (leb (s.heap r).retry_at now) _ _
        (λ _. rounds-users rest now (enqueue_locked r (record s { retries = rest }))) (λ _. refl)

  pick-users : (found : Option Ref) (now : ℕ) (s : Scheduler) → (pick found now s).0.users ≡ s.users
  unfolding pick start_job
  pick-users none now s = refl
  pick-users (some r) now s = refl

  next-Stays : (now : ℕ) (s : Scheduler) → Stays s (next now s).0
  unfolding next retry_due_locked
  next-Stays now s =
      if-cases {A = Scheduler × Next} (λ p. Stays s p.0) s.draining _ _ (λ _. same-Stays s s refl)
        (λ _. same-Stays s _ (
          pick-users (first_unheld_locked (retry_due_locked now s)) now (retry_due_locked now s)
          ∙ rounds-users s.retries now s))

  settle_job-users :
      (cut : Bool) (err : Option JobError) (now jitter : ℕ) (r : Ref) (s : Scheduler)
      → (settle_job cut err now jitter r s).0.users ≡ s.users
  unfolding settle_job succeed back_off enqueue_locked
  settle_job-users true err now jitter r s = refl
  settle_job-users false none now jitter r s = ground arith
  settle_job-users false (some e) now jitter r s = refl

  finish-Stays :
      (cut : Bool) (measure : ℤ) (err : Option JobError) (now jitter : ℕ) (r : Ref) (s : Scheduler)
      → Stays s (finish cut measure err now jitter r s).0
  unfolding Stays finish clear_dirty record_measure unlock_changed
  finish-Stays cut measure err now jitter r s = forget-Stays s _ r (
      settle_job-users cut err now jitter r
        (record_measure measure r (record s { running = s.running - 1 })))

-- No step of the scheduler drops a user from the map of users that something needs: a user that has
-- work, is held or waited on, or has characters pending after the step, by an estimate that is known
-- or not, is its key's user still.
pub Step-needed :
    {y z : System}
    → Step y z
    → (key : String) (x : Ref) → lookup key y.sched.users ≡ some x
    → needed (z.sched.heap x) ≡ true
    → lookup key z.sched.users ≡ some x
unfolding Stays sys_wait sys_wake sys_hold sys_pick sys_finish
Step-needed (notifies y now k added) key x = notify-Stays key x now k added y.sched
Step-needed (waits y now k limit) key x = wait_backlog-Stays key x now k limit y.sched
Step-needed (wakes y ended before w after e) key x =
    wait_again-Stays key x ended w.now w.limit w.ref y.sched
Step-needed (holds y k) key x = hold-Stays key x k y.sched
Step-needed (releases y r e) key x =
    unfold release unlock_changed in forget-Stays key x y.sched _ r refl
Step-needed (drains y) key x = λ h n. unfold drain in h
Step-needed (starts y) key x = λ h n. unfold run_start in ground (arith, h)
Step-needed (ends y on empty) key x = λ h n. unfold run_end in h
Step-needed (picks y now on room) key x = next-Stays key x now y.sched
Step-needed (finishes y cut measure err now jitter r e) key x =
    finish-Stays key x cut measure err now jitter r y.sched
Step-needed (measures y k chars) key x = measured-Stays key x k chars y.sched
