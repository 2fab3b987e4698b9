-- ===== src/Scheduler/Ops.antt =====
-- internal/aml/scheduler.go: the scheduler's operations.
mod Requests
mod Jobs
unfoldable pub use Requests.*
unfoldable pub use Jobs.*
