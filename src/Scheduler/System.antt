-- ===== src/Scheduler/System.antt =====
-- internal/aml/scheduler.go as a concurrent system: its steps, and what holds of every state that
-- it reaches.
pub mod Defs
pub mod Places
pub mod Registry
pub mod Counts
pub mod Retries
pub mod Invariant
pub mod Notifies
pub mod Waits
pub mod Finishes
pub mod Reach
