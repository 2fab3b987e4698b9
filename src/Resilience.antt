-- ===== src/Resilience.antt =====
-- internal/memoryagent/resilience.go: the policies and the retries of model calls.
pub mod Policies
pub mod Retries
pub mod Call
pub mod Flight
pub mod Provider
mod Permits
mod Resolves
mod Delays
mod Window
mod Attempts
mod Bounds
mod Reports
mod Ring
mod Examples
mod Flights
