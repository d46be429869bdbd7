-- ===== src/Scheduler.antt =====
-- The child task scheduler: src/ndt_agents/orchestration/scheduler.py.
pub mod Data
pub mod Waves
pub mod Order
pub mod Complete
pub mod Validation
pub mod Outcome
pub mod Execution
pub mod Intake
pub mod Queue
pub mod Terminal
pub mod Cancelled
pub mod Status
pub mod Prerequisites
mod Tests
