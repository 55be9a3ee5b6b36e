-- ===== src/Gateway.antt =====
-- services/ai_gateway: the choice of providers, and the calls of them.
pub mod Router
pub mod Access
pub mod Resilience
pub mod ContentSafety
pub mod Execution
