-- ===== src/Outbox.antt =====
-- internal/agency/authority: the outbox of deliveries to peers.
pub mod Settle
mod Receipts
mod Final
mod Examples
