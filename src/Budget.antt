-- ===== src/Budget.antt =====
-- internal/memoryagent/budget.go: the durable spending budget of paid model calls.
pub mod State
pub mod Ops
pub mod Resolve
pub mod Sums
pub mod Balance
pub mod Reserve
pub mod CapSafety
mod Holds
mod Runs
mod Examples
