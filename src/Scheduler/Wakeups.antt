-- ===== src/Scheduler/Wakeups.antt =====
-- internal/aml/scheduler.go: no wake-up of WaitBacklog is lost. A caller that sleeps on the change
-- channel of the moment is one that must wait.
pub mod Always
use mnemon.Prelude.{
  ℕ, suc, ◌+◌, ◌-◌, ◌≤◌, ◌<◌, ◌≡◌, refl, sym, ap, subst, ◌∙◌, Bool, true, false, not, ◌&&◌, ◌||◌,
  String, Option, none, some, List, [], ◌∷◌, ◌++◌, ◌==◌, leb, if◌then◌else◌, All, one_if, arith,
  ◌⊎◌, inl, inr, Bool-cases, Option-cases, if-cases,
}
use mnemon.Prelude.Int.{ℤ}
use mnemon.Prelude.Store.{Ref, update}
use mnemon.Prelude.Dict.{lookup}
use mnemon.Scheduler.State.{
  UserState, idle, queued, running, backing_off, SchedUser, is_idle, is_running, is_backing_off,
  Scheduler, JobError, LogLine, queue_full_every,
}
use mnemon.Scheduler.Locked.{
  active_locked, enqueue_locked, retry_due_rounds, retry_due_locked, first_unheld_locked,
}
use mnemon.Scheduler.Ops.{
  drop_notification, notify_state, notify_user, notify_found, notify, no_room, must_wait,
  wait_leave, wait_idle, wait_round, add_waiter, add_user, wait_backlog, wait_again, hold_user,
  hold, release, drain, run_start, run_end, next, Next, pick, start_job, finish, measured,
}
use mnemon.Scheduler.System.Defs.{Waiter, System}
use mnemon.Scheduler.System.Registry.{busy}

-- A sleeping caller that may sleep on.
pub record IsAsleep (s : Scheduler) (w : Waiter) : Type 0 where
  pub past : w.channel ≤ s.changed
  pub waits : w.channel ≡ s.changed → must_wait w.limit w.ref s ≡ true

-- From `s` to `t` the callers are woken, or the users go on to be waited for as they were.
pub data Tells (s t : Scheduler) : Type 0 where
  wakes_all : s.changed < t.changed → Tells s t
  keeps :
      t.changed ≡ s.changed
      → ((limit : ℤ) (r : Ref)
          → busy (s.heap r) ≡ true
          → must_wait limit r s ≡ true
          → must_wait limit r t ≡ true)
      → Tells s t

pub IsAsleep-Tells :
    {s t : Scheduler} {w : Waiter}
    → Tells s t
    → busy (s.heap w.ref) ≡ true
    → IsAsleep s w
    → IsAsleep t w
IsAsleep-Tells (wakes_all h) b a = record {
  past = omega (arith, a.past);
  waits = λ e. absurd (omega (arith, a.past));
}
IsAsleep-Tells {w = w} (keeps h k) b a = record {
  past = omega (arith, a.past);
  waits = λ e. k w.limit w.ref b (a.waits (e ∙ h));
}

Tells-drop : (now : ℕ) (key : String) (s : Scheduler) → Tells s (drop_notification now key s).0
unfolding drop_notification must_wait
Tells-drop now key s =
    elim (Bool-cases ((s.full_logged == 0) || leb queue_full_every (now - s.full_logged))) [
      | inl e ↦ rw e (keeps refl (λ limit r b h. h))
      | inr e ↦ rw e (keeps refl (λ limit r b h. h))
    ]

changed-notify_state :
    (st : UserState) (now : ℕ) (added : ℤ) (r : Ref) (s : Scheduler)
    → (notify_state st now added r s).changed ≡ s.changed
unfolding notify_state
changed-notify_state idle now added r s = refl
changed-notify_state queued now added r s = refl
changed-notify_state running now added r s = refl
changed-notify_state backing_off now added r s = refl

Tells-notify_found :
    (found : Option Ref) (now : ℕ) (key : String) (added : ℤ) (s : Scheduler)
    → Tells s (notify_found found now key added s)
unfolding notify_found notify_user add_user
Tells-notify_found none now key added s = wakes_all (omega (arith, changed-notify_state))
Tells-notify_found (some r) now key added s = wakes_all (omega (arith, changed-notify_state))

pub Tells-notify :
    (now : ℕ) (key : String) (added : ℤ) (s : Scheduler) → Tells s (notify now key added s).0
unfolding notify
Tells-notify now key added s = elim (Bool-cases (no_room (lookup key s.users) s)) [
  | inl full ↦ rw full (Tells-drop now key s)
  | inr room ↦ rw room (Tells-notify_found (lookup key s.users) now key added s)
]

-- A write to one user that keeps its state and its backlog.
Tells-update :
    (s : Scheduler) (r : Ref) (u : SchedUser)
    → u.state ≡ (s.heap r).state
    → u.backlog ≡ (s.heap r).backlog
    → Tells s (record s { heap = update s.heap r u })
unfolding must_wait
Tells-update s r u e b = keeps refl (λ limit x l h. ground arith)

pub Tells-hold :
    (key : String) (s : Scheduler) → busy (s.heap s.next_ref) ≡ false → Tells s (hold key s).0
unfolding hold hold_user must_wait
Tells-hold key s f = elim (Option-cases (lookup key s.users)) [
  | inl e ↦ rw (e, hold) (keeps refl (λ limit x b h. unfold add_user in ground arith))
  | inr (r, e) ↦ rw (e, hold) (Tells-update s r _ refl refl)
]

pub Tells-release : (r : Ref) (s : Scheduler) → Tells s (release r s)
unfolding release
Tells-release r s = wakes_all (omega arith)

pub Tells-drain : (s : Scheduler) → Tells s (drain s)
unfolding drain
Tells-drain s = wakes_all (omega arith)

pub Tells-run_start : (s : Scheduler) → Tells s (run_start s).0
unfolding run_start must_wait
Tells-run_start s = elim (Bool-cases s.started) [
  | inl e ↦ rw e (keeps refl (λ limit r b h. h))
  | inr e ↦ keeps (ground arith) (λ limit r b h. ground arith)
]

pub Tells-run_end : (s : Scheduler) → Tells s (run_end s)
unfolding run_end
Tells-run_end s = wakes_all (omega arith)

pub Tells-finish :
    (cut : Bool) (measure : ℤ) (err : Option JobError) (now jitter : ℕ) (r : Ref) (s : Scheduler)
    → Tells s (finish cut measure err now jitter r s).0
unfolding finish
Tells-finish true measure err now jitter r s = wakes_all (omega arith)
Tells-finish false measure none now jitter r s = wakes_all (ground arith)
Tells-finish false measure (some err) now jitter r s = wakes_all (omega arith)

pub Tells-measured : (key : String) (chars : ℤ) (s : Scheduler) → Tells s (measured key chars s)
unfolding measured
Tells-measured key chars s = elim (Option-cases (lookup key s.users)) [
  | inl e ↦ rw (e, measured) (keeps refl (λ limit r b h. h))
  | inr (r, e) ↦ elim (Bool-cases ((s.heap r).measured || is_running (s.heap r).state)) [
    | inl old ↦ rw (e, measured) (rw old (keeps refl (λ limit x b h. h)))
    | inr new ↦ rw (e, measured) (rw new (wakes_all (omega arith)))
  ]
]

changed-rounds :
    (l : List Ref) (now : ℕ) (s : Scheduler) → (retry_due_rounds l now s).changed ≡ s.changed
unfolding retry_due_rounds enqueue_locked
changed-rounds [] now s = refl
changed-rounds (r ∷ rest) now s =
    if-cases (λ (t : Scheduler). t.changed ≡ s.changed) (leb (s.heap r).retry_at now) _ _
      (λ _. changed-rounds rest now (enqueue_locked r (record s { retries = rest }))) (λ _. refl)

must_wait-rounds :
    (l : List Ref) (now : ℕ) (s : Scheduler) (limit : ℤ) (x : Ref)
    → must_wait limit x s ≡ true
    → must_wait limit x (retry_due_rounds l now s) ≡ true
unfolding retry_due_rounds enqueue_locked
must_wait-rounds [] now s limit x h = unfold must_wait in h
must_wait-rounds (r ∷ rest) now s limit x h =
    if-cases (λ (t : Scheduler). must_wait limit x t ≡ true) (leb (s.heap r).retry_at now) _ _
      (λ _.
        must_wait-rounds rest now (enqueue_locked r (record s { retries = rest })) limit x
          (unfold must_wait in ground arith))
      (λ _. unfold must_wait in h)

must_wait-start_job :
    (r : Ref) (s : Scheduler) (limit : ℤ) (x : Ref)
    → must_wait limit x s ≡ true
    → must_wait limit x (start_job r s) ≡ true
unfolding start_job must_wait
must_wait-start_job r s limit x h = ground arith

Tells-pick :
    (s : Scheduler) (found : Option Ref) (now : ℕ) (t : Scheduler)
    → t.changed ≡ s.changed
    → ((limit : ℤ) (r : Ref) → must_wait limit r s ≡ true → must_wait limit r t ≡ true)
    → Tells s (pick found now t).0
unfolding pick
Tells-pick s none now t e h = keeps e (λ limit r b w. h limit r w)
Tells-pick s (some q) now t e h =
    keeps (unfold start_job in e) (λ limit r b w. must_wait-start_job q t limit r (h limit r w))

pub Tells-next : (now : ℕ) (s : Scheduler) → Tells s (next now s).0
unfolding next
Tells-next now s =
    if-cases {A = Scheduler × Next} (λ a. Tells s a.0) s.draining _ _
      (λ _. keeps refl (λ limit r b h. h))
      (λ _.
        Tells-pick s (first_unheld_locked (retry_due_locked now s)) now (retry_due_locked now s)
          (changed-rounds s.retries now s) (must_wait-rounds s.retries now s))

-- What a part of WaitBacklog leaves: if the caller sleeps, it does on the channel of the moment, and
-- it must wait.
pub record Sleeps (limit : ℤ) (r : Ref) (s : Scheduler) (a : Scheduler × Option ℕ) : Type 0 where
  pub tells : Tells s a.0
  pub channel : (c : ℕ) → a.1 ≡ some c → c ≡ a.0.changed
  pub must : (c : ℕ) → a.1 ≡ some c → must_wait limit r a.0 ≡ true

Sleeps-leave : (limit : ℤ) (r : Ref) (s : Scheduler) → Sleeps limit r s (wait_leave r s, none)
unfolding wait_leave
Sleeps-leave limit r s = record {
  tells = keeps refl (λ l x b h. unfold must_wait in ground arith);
  channel = λ c e. cc;
  must = λ c e. cc;
}

Sleeps-wait_idle :
    (now : ℕ) (limit : ℤ) (r : Ref) (s : Scheduler)
    → must_wait limit r s ≡ true
    → Sleeps limit r s (wait_idle now r s)
unfolding wait_idle
Sleeps-wait_idle now limit r s h = elim (Bool-cases (leb s.max_users (active_locked s))) [
  | inl full ↦ rw full (Sleeps-leave limit r s)
  | inr room ↦ rw room (record {
    tells = wakes_all (omega arith);
    channel = λ c e. ground arith;
    must = λ c e. unfold must_wait in ground arith;
  })
]

Sleeps-wait_round :
    (now : ℕ) (limit : ℤ) (r : Ref) (s : Scheduler) → Sleeps limit r s (wait_round now limit r s)
unfolding wait_round
Sleeps-wait_round now limit r s = elim (Bool-cases (must_wait limit r s)) [
  | inl wait ↦ elim (Bool-cases (is_idle (s.heap r).state)) [
    | inl e ↦ rw (wait, e) (Sleeps-wait_idle now limit r s wait)
    | inr e ↦
        rw (wait, e)
          (record {
            tells = keeps refl (λ l x b h. h);
            channel = λ c e. ground arith;
            must = λ c e. wait;
          })
  ]
  | inr done ↦ rw done (Sleeps-leave limit r s)
]

pub Sleeps-wait_again :
    (ended : Bool) (now : ℕ) (limit : ℤ) (r : Ref) (s : Scheduler)
    → Sleeps limit r s (wait_again ended now limit r s)
unfolding wait_again
Sleeps-wait_again true now limit r s = Sleeps-leave limit r s
Sleeps-wait_again false now limit r s = Sleeps-wait_round now limit r s

Tells-after_add : (r : Ref) (s t : Scheduler) → Tells (add_waiter r s) t → Tells s t
unfolding add_waiter
Tells-after_add r s t (wakes_all h) = wakes_all h
Tells-after_add r s t (keeps h k) =
    keeps h (λ limit x b w. k limit x (ground arith) (unfold must_wait in ground arith))

pub Sleeps-add :
    (now : ℕ) (limit : ℤ) (r : Ref) (s : Scheduler)
    → Sleeps limit r s (wait_round now limit r (add_waiter r s))
Sleeps-add now limit r s =
    let a = Sleeps-wait_round now limit r (add_waiter r s) in
    record { tells = Tells-after_add r s _ a.tells; channel = a.channel; must = a.must }
