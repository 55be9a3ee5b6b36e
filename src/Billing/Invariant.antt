-- ===== src/Billing/Invariant.antt =====
-- The invariants of the repositories under every sequence of calls of the service.
pub mod Writes
pub mod Sound
pub mod Balanced
pub mod History
pub mod Reachable
pub mod Reserved
