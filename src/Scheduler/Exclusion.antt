-- ===== src/Scheduler/Exclusion.antt =====
-- internal/aml/scheduler.go: how many jobs run at once, and for whom.
use mnemon.Prelude.{ℕ, ◌≤◌, ◌<◌, ◌≡◌, ap, some, String, count, arith}
use mnemon.Prelude.Store.{Ref}
use mnemon.Prelude.Dict.{lookup}
use mnemon.Scheduler.Locked.{active_locked}
use mnemon.Scheduler.System.Defs.{System, init, Reach}
use mnemon.Scheduler.System.Reach.{Reach-IsConsistent}

-- In every state that is reached, two jobs that run are for different users, and each user's job
-- runs once.
pub one_job_per_user :
    (workers max_users : ℕ) {x : System}
    → Reach (init workers max_users) x
    → (r q : Ref) → 0 < count r x.jobs
    → 0 < count q x.jobs
    → (x.sched.heap r).key ≡ (x.sched.heap q).key
    → (r ≡ q) × (count r x.jobs ≡ 1)
one_job_per_user workers max_users {x} reached r q a b same =
    let i = (Reach-IsConsistent workers max_users reached).inv in
    let lr : lookup (x.sched.heap r).key x.sched.users ≡ some r =
      i.registry.registered r (ground (arith, i.placed.in_jobs r)) in
    let lq : lookup (x.sched.heap q).key x.sched.users ≡ some q =
      i.registry.registered q (ground (arith, i.placed.in_jobs q)) in
    (
      cc (lr, lq, ap (λ (k : String). lookup k x.sched.users) same),
      ground (arith, i.placed.in_jobs r),
    )

-- In every state that is reached, the users with work (queued, running or backing off) are at most
-- `maxUsers`.
pub active-le-max_users :
    (workers max_users : ℕ) {x : System}
    → Reach (init workers max_users) x
    → active_locked x.sched ≤ x.sched.max_users
unfolding active_locked
active-le-max_users workers max_users reached =
    (Reach-IsConsistent workers max_users reached).inv.bounded
