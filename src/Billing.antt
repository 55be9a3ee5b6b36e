-- ===== src/Billing.antt =====
-- services/platform_billing.
pub mod World
pub mod Action
pub mod Accounts
pub mod Ledger
pub mod Reservations
pub mod Usage
pub mod RateCards
pub mod Idempotency
pub mod UnitOfWork
pub mod Pricing
pub mod Authorizer
pub mod Service
pub mod Gateway
pub mod Invariant
