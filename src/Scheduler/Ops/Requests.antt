-- ===== src/Scheduler/Ops/Requests.antt =====
-- internal/aml/scheduler.go: the operations that requests call. Each part between taking the
-- scheduler's lock and leaving it is one function; the clock is an argument.
use mnemon.Prelude.{
  ℕ, suc, ◌-◌, Bool, true, false, ◌&&◌, ◌||◌, not, String, Option, none, some, ltb, leb, ◌==◌,
  if◌then◌else◌,
}
use mnemon.Prelude.Int.{ℤ, ◌+ℤ◌, int64, leb_ℤ}
use mnemon.Prelude.Store.{Ref, update}
use mnemon.Prelude.Dict.{lookup, insert}
use mnemon.Scheduler.State.{
  UserState, idle, running, is_idle, is_running, is_backing_off, new_user, Scheduler,
  queue_full_every, LogLine, queue_full,
}
use mnemon.Scheduler.Locked.{active_locked, enqueue_locked, forget_locked, unlock_changed}

-- `u = &schedUser{key: key}; s.users[key] = u`.
unfoldable pub add_user : String → Scheduler → Scheduler
add_user key s = record s {
  heap = update s.heap s.next_ref (new_user key);
  next_ref = suc s.next_ref;
  users = insert key s.next_ref s.users;
}

-- Whether Notify drops: no place is left for a user without work.
unfoldable pub no_room : Option Ref → Scheduler → Bool
unfolding active_locked
no_room none s = leb s.max_users (active_locked s)
no_room (some r) s = is_idle (s.heap r).state && leb s.max_users (active_locked s)

unfoldable pub drop_notification : ℕ → String → Scheduler → Scheduler × Option LogLine
drop_notification now key s =
    if (s.full_logged == 0) || leb queue_full_every (now - s.full_logged)
    then (record s { full_logged = now }, some (queue_full s.max_users key))
    else (s, none)

-- The switch of Notify, on the state of the user.
unfoldable pub notify_state : UserState → ℕ → ℤ → Ref → Scheduler → Scheduler
unfolding enqueue_locked
notify_state idle now added r s =
    enqueue_locked r (record s { heap = update s.heap r (record (s.heap r) { since = now }) })
notify_state running now added r s =
    let u = s.heap r in
    record s {
      heap = update s.heap r (record u {
        added = int64 (u.added +ℤ added);
        dirty = true;
        dirty_since = if u.dirty then u.dirty_since else now;
      });
    }
notify_state _ now added r s = s

unfoldable pub notify_user : ℕ → ℤ → Ref → Scheduler → Scheduler
unfolding notify_state
notify_user now added r s =
    let u = s.heap r in
    notify_state u.state now added r
      (record s { heap = update s.heap r (record u { backlog = int64 (u.backlog +ℤ added) }) })

-- Notify, on what the map holds for the key.
unfoldable pub notify_found : Option Ref → ℕ → String → ℤ → Scheduler → Scheduler
unfolding notify_user add_user unlock_changed
notify_found none now key added s =
    unlock_changed (notify_user now added s.next_ref (add_user key s))
notify_found (some r) now key added s = unlock_changed (notify_user now added r s)

unfoldable pub notify : ℕ → String → ℤ → Scheduler → Scheduler × Option LogLine
unfolding notify_found no_room drop_notification
notify now key added s =
    let found = lookup key s.users in
    if no_room found s
    then drop_notification now key s
    else (notify_found found now key added s, none)

-- The condition of WaitBacklog's loop.
unfoldable pub must_wait : ℤ → Ref → Scheduler → Bool
must_wait limit r s =
    let u = s.heap r in
    not (leb_ℤ u.backlog limit) && not (is_backing_off u.state) && not s.stopped && not s.draining

-- The deferred end of WaitBacklog.
unfoldable pub wait_leave : Ref → Scheduler → Scheduler
unfolding forget_locked
wait_leave r s =
    let u = s.heap r in
    forget_locked r (record s { heap = update s.heap r (record u { waiters = u.waiters - 1 }) })

-- Waiting on an idle user queues a job, unless none can be queued.
unfoldable pub wait_idle : ℕ → Ref → Scheduler → Scheduler × Option ℕ
unfolding wait_leave active_locked enqueue_locked unlock_changed
wait_idle now r s =
    let since_now = record s { heap = update s.heap r (record (s.heap r) { since = now }) } in
    if leb s.max_users (active_locked s)
    then (wait_leave r s, none)
    else (unlock_changed (enqueue_locked r since_now), some (suc s.changed))

-- One round of WaitBacklog's loop: it returns (`none`), or waits for the end of the change channel.
unfoldable pub wait_round : ℕ → ℤ → Ref → Scheduler → Scheduler × Option ℕ
unfolding must_wait wait_leave wait_idle
wait_round now limit r s =
    if not (must_wait limit r s)
    then (wait_leave r s, none)
    else if is_idle (s.heap r).state
    then wait_idle now r s
    else (s, some s.changed)

unfoldable pub add_waiter : Ref → Scheduler → Scheduler
add_waiter r s = record s {
  heap = update s.heap r (record (s.heap r) { waiters = suc (s.heap r).waiters });
}

-- WaitBacklog, from its start to its first wait; `none` for a user the scheduler does not know.
unfoldable pub wait_backlog : ℕ → String → ℤ → Scheduler → Scheduler × Option ℕ
unfolding wait_round add_waiter
wait_backlog now key limit s = elim (lookup key s.users) [
  | none ↦ (s, none)
  | some r ↦ wait_round now limit r (add_waiter r s)
]

-- WaitBacklog after a wait: an ended context returns its error, else the loop goes on.
unfoldable pub wait_again : Bool → ℕ → ℤ → Ref → Scheduler → Scheduler × Option ℕ
unfolding wait_round wait_leave
wait_again true now limit r s = (wait_leave r s, none)
wait_again false now limit r s = wait_round now limit r s

unfoldable pub hold_user : Ref → Scheduler → Scheduler
hold_user r s = record s {
  heap = update s.heap r (record (s.heap r) { holds = suc (s.heap r).holds });
}

-- Hold; the reference is what its `release` closes over.
unfoldable pub hold : String → Scheduler → Scheduler × Ref
unfolding hold_user add_user
hold key s = elim (lookup key s.users) [
  | none ↦ (hold_user s.next_ref (add_user key s), s.next_ref)
  | some r ↦ (hold_user r s, r)
]

-- The first call of a `release`; the others do nothing (sync.OnceFunc).
unfoldable pub release : Ref → Scheduler → Scheduler
unfolding forget_locked unlock_changed
release r s =
    let u = s.heap r in
    unlock_changed
      (forget_locked r (record s { heap = update s.heap r (record u { holds = u.holds - 1 }) }))

unfoldable pub yielding : String → Scheduler → Bool
yielding key s =
    s.draining || elim (lookup key s.users) [ none ↦ false | some r ↦ ltb 0 (s.heap r).holds ]

unfoldable pub drain : Scheduler → Scheduler
unfolding unlock_changed
drain s = unlock_changed (record s { draining = true })

-- Measured.
unfoldable pub measured : String → ℤ → Scheduler → Scheduler
unfolding unlock_changed
measured key chars s = elim (lookup key s.users) [
  | none ↦ s
  | some r ↦
      let u = s.heap r in
      if u.measured || is_running u.state
      then s
      else unlock_changed (record s {
        heap = update s.heap r (record u { backlog = chars; measured = true });
        measured = insert key true s.measured;
      })
]

unfoldable pub has_measured : String → Scheduler → Bool
has_measured key s = elim (lookup key s.measured) [ none ↦ false | some b ↦ b ]
