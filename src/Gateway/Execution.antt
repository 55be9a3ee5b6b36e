-- ===== src/Gateway/Execution.antt =====
-- services/ai_gateway/execution.py: the secure execution of a request, in its parts.
pub mod Data
pub mod Action
pub mod Store
pub mod Outcomes
pub mod Service
pub mod Configured
pub mod Invariant
pub mod Gives
pub mod Charged
pub mod Replay
