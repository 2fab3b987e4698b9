-- ===== src/Scheduler/System/Defs.antt =====
-- internal/aml/scheduler.go as a concurrent system: the scheduler, and what its callers keep
-- between two of its locked parts. A step is one such part, run by any of the callers.
use mnemon.Prelude.{
  ℕ, ◌+◌, ◌<◌, ◌≡◌, Bool, true, String, Option, none, some, List, [], ◌∷◌, ◌++◌, ◌==◌, length,
  count, erase, one_if,
}
use mnemon.Prelude.Int.{ℤ}
use mnemon.Prelude.Store.{Ref}
use mnemon.Prelude.Dict.{lookup}
use mnemon.Scheduler.State.{Scheduler, new_scheduler, JobError}
use mnemon.Scheduler.Ops.{
  notify, wait_backlog, wait_again, hold, release, drain, run_start, run_end, Next, exits, runs,
  sleeps, next, finish, measured,
}

-- A WaitBacklog that sleeps: its user, its limit, the clock it read, and the change channel.
pub record Waiter : Type 0 where
  pub ref : Ref
  pub limit : ℤ
  pub now : ℕ
  pub channel : ℕ

-- `jobs` are the users that workers run, `holders` those of the releases not yet called.
pub record System : Type 0 where
  pub sched : Scheduler
  pub jobs : List Ref
  pub holders : List Ref
  pub waiting : List Waiter

abbrev pub init : ℕ → ℕ → System
init workers max_users = record {
  sched = new_scheduler workers max_users;
  jobs = [];
  holders = [];
  waiting = [];
}

abbrev pub count_waiting : Ref → List Waiter → ℕ
count_waiting r [] = 0
count_waiting r (w ∷ ws) = one_if (w.ref == r) + count_waiting r ws

-- The callers after a part of WaitBacklog: it returned, or sleeps.
abbrev pub park : Ref → ℕ → ℤ → Option ℕ → List Waiter → List Waiter
park r now limit none ws = ws
park r now limit (some channel) ws =
    record { ref = r; limit = limit; now = now; channel = channel } ∷ ws

abbrev pub park_found : Option Ref → ℕ → ℤ → Option ℕ → List Waiter → List Waiter
park_found none now limit channel ws = ws
park_found (some r) now limit channel ws = park r now limit channel ws

abbrev pub take_job : Next → List Ref → List Ref
take_job exits jobs = jobs
take_job (runs r) jobs = r ∷ jobs
take_job (sleeps wait) jobs = jobs

unfoldable pub sys_wait : ℕ → String → ℤ → System → System
sys_wait now key limit x =
    let (s, channel) = wait_backlog now key limit x.sched in
    record x {
      sched = s;
      waiting = park_found (lookup key x.sched.users) now limit channel x.waiting;
    }

-- The waiter `w` goes on; `others` are the rest.
unfoldable pub sys_wake : Bool → Waiter → List Waiter → System → System
sys_wake ended w others x =
    let (s, channel) = wait_again ended w.now w.limit w.ref x.sched in
    record x { sched = s; waiting = park w.ref w.now w.limit channel others }

unfoldable pub sys_hold : String → System → System
sys_hold key x = let (s, r) = hold key x.sched in record x { sched = s; holders = r ∷ x.holders }

unfoldable pub sys_pick : ℕ → System → System
sys_pick now x =
    let (s, choice) = next now x.sched in record x { sched = s; jobs = take_job choice x.jobs }

unfoldable pub sys_finish : Bool → ℤ → Option JobError → ℕ → ℕ → Ref → System → System
sys_finish cut measure err now jitter r x = record x {
  sched = (finish cut measure err now jitter r x.sched).0;
  jobs = erase x.jobs r;
}

pub data Step : System → System → Type 0 where
  notifies :
      (x : System) (now : ℕ) (key : String) (added : ℤ)
      → Step x (record x { sched = (notify now key added x.sched).0 })
  waits : (x : System) (now : ℕ) (key : String) (limit : ℤ) → Step x (sys_wait now key limit x)
  wakes :
      (x : System) (ended : Bool) (before : List Waiter) (w : Waiter) (after : List Waiter)
      → x.waiting ≡ before ++ (w ∷ after)
      → Step x (sys_wake ended w (before ++ after) x)
  holds : (x : System) (key : String) → Step x (sys_hold key x)
  releases :
      (x : System) (r : Ref)
      → 0 < count r x.holders
      → Step x (record x { sched = release r x.sched; holders = erase x.holders r })
  drains : (x : System) → Step x (record x { sched = drain x.sched })
  starts : (x : System) → Step x (record x { sched = (run_start x.sched).0 })
  ends :
      (x : System)
      → x.sched.started ≡ true
      → x.jobs ≡ []
      → Step x (record x { sched = run_end x.sched })
  picks :
      (x : System) (now : ℕ)
      → x.sched.started ≡ true
      → length x.jobs < x.sched.workers
      → Step x (sys_pick now x)
  finishes :
      (x : System) (cut : Bool) (measure : ℤ) (err : Option JobError) (now jitter : ℕ) (r : Ref)
      → 0 < count r x.jobs
      → Step x (sys_finish cut measure err now jitter r x)
  measures :
      (x : System) (key : String) (chars : ℤ)
      → Step x (record x { sched = measured key chars x.sched })

pub data Reach (x : System) : System → Type 0 where
  here : Reach x x
  later : {y z : System} → Reach x y → Step y z → Reach x z
