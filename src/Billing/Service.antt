-- ===== src/Billing/Service.antt =====
-- services/platform_billing/service.py: `PlatformBillingService`, an operation to a module.
pub mod Common
pub mod Accounts
pub mod Status
pub mod Credits
pub mod Reserve
pub mod Capture
pub mod Release
pub mod GatewayReserve
pub mod GatewayCapture
pub mod GatewayRelease
pub mod Reads
pub mod Repeats
pub mod Call
pub mod Preserves
pub mod Atomic
pub mod Rollback
