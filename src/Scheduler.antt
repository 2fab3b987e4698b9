-- ===== src/Scheduler.antt =====
-- internal/aml/scheduler.go: the scheduler of the users' consolidation jobs.
pub mod State
pub mod Locked
pub mod Ops
pub mod Views
pub mod System
pub mod Exclusion
pub mod Order
pub mod Outcomes
pub mod Pending
pub mod Draining
pub mod Wakeups
pub mod Backoff
pub mod Visible
pub mod Keeps
mod Examples
