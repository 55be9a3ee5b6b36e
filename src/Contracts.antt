-- ===== src/Contracts.antt =====
-- The versioned contracts of packages/contracts that the billing service and the control plane
-- exchange. The field `schema_version` is left out: every caller takes its default, which passes.
pub mod Text
pub mod Domain
pub mod Billing
pub mod Checks
