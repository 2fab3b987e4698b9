-- ===== src/Registry.antt =====
-- internal/aml/registry.go: the registry of the users' open stores.
pub mod State
pub mod Ops
mod Invariant
mod Evict
mod Closing
pub mod System
mod Sound
mod Safety
mod Eviction
mod Examples
