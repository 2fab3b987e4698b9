-- ===== src/Scheduler/Visible.antt =====
-- internal/aml/scheduler.go: what forgetLocked drops is nothing that the views show.
use mnemon.Prelude.{ℕ, ◌≡◌, String, none, some, eq_iff, arith, inl, inr, ◌⊎◌}
use mnemon.Prelude.Store.{Ref}
use mnemon.Prelude.Dict.{lookup, lookup-delete}
use mnemon.Scheduler.State.{idle, Scheduler}
use mnemon.Scheduler.Locked.{forget_users, forget_locked}
use mnemon.Scheduler.Views.{state_of}
use mnemon.Scheduler.Ops.{yielding}
use mnemon.Scheduler.System.Defs.{System, init, Reach}
use mnemon.Scheduler.System.Reach.{Reach-IsConsistent}

lookup-forget_users :
    (key : String) (r : Ref) (s : Scheduler)
    → (lookup key (forget_users r s) ≡ lookup key s.users)
      ⊎ ((lookup key (forget_users r s) ≡ none)
          × (lookup key s.users ≡ some r)
          × ((s.heap r).state ≡ idle)
          × ((s.heap r).holds ≡ 0))
unfolding forget_users
lookup-forget_users key r s =
    ground (arith, lookup-delete (s.heap r).key key s.users, eq_iff (s.heap r).key key)

-- Dropping a user changes nothing that StateOf or `yielding` answers of any user.
pub forget-invisible :
    (workers max_users : ℕ) {x : System}
    → Reach (init workers max_users) x
    → (key : String) (r : Ref)
    → let t = forget_locked r x.sched in
      (state_of key t ≡ state_of key x.sched) × (yielding key t ≡ yielding key x.sched)
unfolding forget_locked state_of yielding
forget-invisible workers max_users {x} reached key r =
    let s = x.sched in
    let calm = (Reach-IsConsistent workers max_users reached).inv.calm in
    elim (lookup-forget_users key r s) [
      | inl e ↦ (rw (e, state_of), rw (e, yielding))
      | inr (gone, was, st, free) ↦ (
        rw (gone, was, state_of) (ground (arith, st, free, calm.rested r)),
        rw (gone, was, yielding) (ground (arith, free)),
      )
    ]
