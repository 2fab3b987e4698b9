-- ===== src/Scheduler/State.antt =====
-- internal/aml/scheduler.go, lines 39-184: the users' states, the scheduler's state, its constants
-- and how a job ended. Users are shared objects: the map, the queue and the retry heap hold
-- references to them. Times are nanoseconds, 0 the zero time.
use mnemon.Prelude.{ℕ, ◌*◌, String, Bool, true, false, Option, none, some, List, []}
use mnemon.Prelude.Int.{ℤ, pos}
use mnemon.Prelude.Store.{Ref}

abbrev pub second : ℕ
second = 1000000000

abbrev pub retry_base : ℕ
retry_base = 30 * second

abbrev pub retry_max : ℕ
retry_max = 600 * second

abbrev pub reserve_pause : ℕ
reserve_pause = 600 * second

abbrev pub queue_full_every : ℕ
queue_full_every = 60 * second

pub data UserState : Type 0 where
  idle queued running backing_off : UserState

abbrev pub is_idle : UserState → Bool
is_idle idle = true
is_idle _ = false

abbrev pub is_queued : UserState → Bool
is_queued queued = true
is_queued _ = false

abbrev pub is_running : UserState → Bool
is_running running = true
is_running _ = false

abbrev pub is_backing_off : UserState → Bool
is_backing_off backing_off = true
is_backing_off _ = false

-- schedUser; its place in the queue (`elem`) is where its reference stands in `queue`.
pub record SchedUser : Type 0 where
  pub key : String
  pub state : UserState
  pub holds : ℕ
  pub waiters : ℕ
  pub backlog : ℤ
  pub added : ℤ
  pub dirty : Bool
  pub measured : Bool
  pub failures : ℕ
  pub retry_at : ℕ
  pub seq : ℕ
  pub since : ℕ
  pub dirty_since : ℕ

abbrev pub new_user : String → SchedUser
new_user key = record {
  key = key;
  state = idle;
  holds = 0;
  waiters = 0;
  backlog = pos 0;
  added = pos 0;
  dirty = false;
  measured = false;
  failures = 0;
  retry_at = 0;
  seq = 0;
  since = 0;
  dirty_since = 0;
}

-- scheduler; `heap` and `next_ref` are the memory its users stand in, and `changed` numbers the
-- change channels: the channel of an earlier number is closed.
pub record Scheduler : Type 0 where
  pub workers : ℕ
  pub max_users : ℕ
  pub heap : Ref → SchedUser
  pub next_ref : Ref
  pub users : List (String × Ref)
  pub measured : List (String × Bool)
  pub queue : List Ref
  pub retries : List Ref
  pub running : ℕ
  pub retry_seq : ℕ
  pub changed : ℕ
  pub started : Bool
  pub stopped : Bool
  pub draining : Bool
  pub full_logged : ℕ

-- newScheduler.
abbrev pub new_scheduler : ℕ → ℕ → Scheduler
new_scheduler workers max_users = record {
  workers = workers;
  max_users = max_users;
  heap = λ _. new_user "";
  next_ref = 0;
  users = [];
  measured = [];
  queue = [];
  retries = [];
  running = 0;
  retry_seq = 0;
  changed = 0;
  started = false;
  stopped = false;
  draining = false;
  full_logged = 0;
}

-- The failure of a job: whether it wraps ErrBackgroundReserve.
pub data JobError : Type 0 where
  failure reserve : JobError

pub data JobOutcome : Type 0 where
  job_ok job_failed job_paused job_canceled : JobOutcome

unfoldable pub job_outcome : Bool → Option JobError → JobOutcome
job_outcome true err = job_canceled
job_outcome false none = job_ok
job_outcome false (some reserve) = job_paused
job_outcome false (some failure) = job_failed

-- What the scheduler logs, by the user's key.
pub data LogLine : Type 0 where
  queue_full : ℕ → String → LogLine
  retries_in : ℕ → String → LogLine
  paused_reserve : String → LogLine
  panicked : String → LogLine

-- SchedulerStatus.
pub record SchedulerStatus : Type 0 where
  pub queued : ℕ
  pub running : ℕ
  pub backing_off : ℕ
  pub held : ℕ
  pub oldest_queued : ℕ
  pub max_backlog : ℤ
