-- ===== src/Scheduler/System/Reach.antt =====
-- What holds of every state that the system reaches.
use mnemon.Prelude.{ℕ, refl, subst, arith}
use mnemon.Scheduler.System.Defs.{
  System, init, Step, notifies, waits, wakes, holds, releases, drains, starts, ends, picks,
  finishes, measures, Reach, here, later, sys_wait, sys_wake, sys_hold, sys_pick, sys_finish,
}
use mnemon.Scheduler.System.Invariant.{Inv}
use mnemon.Scheduler.System.Notifies.{
  notify-Inv, measured-Inv, hold-Inv, release-Inv, drain-Inv, run_start-Inv, run_end-Inv,
}
use mnemon.Scheduler.System.Waits.{waits-Inv, wakes-Inv}
use mnemon.Scheduler.System.Finishes.{next-Inv, finish-Inv}

-- The invariant of the whole system.
pub record IsConsistent (x : System) : Type 0 where
  pub inv : Inv x.sched x.jobs x.holders x.waiting

init-IsConsistent : (workers max_users : ℕ) → IsConsistent (init workers max_users)
init-IsConsistent workers max_users = record {
  inv = record {
    placed = record {
      in_queue = λ x. refl;
      in_retries = λ x. refl;
      in_jobs = λ x. refl;
      jobs_counted = refl;
    };
    registry = record { registered = λ x e. cc; resolves = λ k x e. cc; fresh = λ x e. refl };
    counted = record { held = λ x. refl; awaited = λ x. refl };
    calm = record { rested = λ x e. refl; failing = λ x e. cc };
    ordered = tt;
    bounded = omega arith;
  };
}

pub Step-IsConsistent : {x y : System} → Step x y → IsConsistent x → IsConsistent y
unfolding sys_wait sys_wake sys_hold sys_pick sys_finish
Step-IsConsistent (notifies x now key added) c = record {
  inv = notify-Inv x.jobs x.holders x.waiting now key added x.sched c.inv;
}
Step-IsConsistent (waits x now key limit) c = record {
  inv = waits-Inv x.jobs x.holders x.waiting now limit x.sched key c.inv;
}
Step-IsConsistent (wakes x ended before w after e) c = record {
  inv =
      wakes-Inv x.jobs x.holders before w after ended x.sched
        (subst (λ l. Inv x.sched x.jobs x.holders l) e c.inv);
}
Step-IsConsistent (holds x key) c = record {
  inv = hold-Inv x.jobs x.holders x.waiting key x.sched c.inv;
}
Step-IsConsistent (releases x r e) c = record {
  inv = release-Inv x.jobs x.holders x.waiting r x.sched c.inv e;
}
Step-IsConsistent (drains x) c = record { inv = drain-Inv x.jobs x.holders x.waiting x.sched c.inv }
Step-IsConsistent (starts x) c = record {
  inv = run_start-Inv x.jobs x.holders x.waiting x.sched c.inv;
}
Step-IsConsistent (ends x on empty) c = record {
  inv = run_end-Inv x.jobs x.holders x.waiting x.sched c.inv;
}
Step-IsConsistent (picks x now on room) c = record {
  inv = next-Inv x.jobs x.holders x.waiting now x.sched c.inv;
}
Step-IsConsistent (finishes x cut measure err now jitter r e) c = record {
  inv = finish-Inv x.jobs x.holders x.waiting r x.sched cut measure err now jitter c.inv e;
}
Step-IsConsistent (measures x key chars) c = record {
  inv = measured-Inv x.jobs x.holders x.waiting key chars x.sched c.inv;
}

-- Every state that the scheduler reaches from its start, by whatever calls and jobs in whatever
-- order, is consistent: each user stands in the queue, the retry heap and the jobs as its state says
-- and `running` counts the jobs; a user that is not idle, held or awaited is the map's for its key;
-- holds and waiters count the callers; an idle user has no failures and one that backs off has some;
-- the retry heap is in order; and the users with work are at most maxUsers.
pub Reach-IsConsistent :
    (workers max_users : ℕ) {x : System} → Reach (init workers max_users) x → IsConsistent x
Reach-IsConsistent workers max_users here = init-IsConsistent workers max_users
Reach-IsConsistent workers max_users (later r st) =
    Step-IsConsistent st (Reach-IsConsistent workers max_users r)
