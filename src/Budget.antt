-- ===== src/Budget.antt =====
-- The budget guard, src/ndt_agents/orchestration/budget.py.
pub mod Policy
pub mod Data
pub mod Stage
pub mod Journal
pub mod Checks
pub mod Calls
pub mod Tools
pub mod Restore
pub mod View
pub mod Sound
pub mod Limits
pub mod Denials
pub mod Restored
pub mod Settlement
pub mod Slots
mod Tests
