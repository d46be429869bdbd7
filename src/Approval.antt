-- ===== src/Approval.antt =====
-- Human approvals: src/ndt_agents/approval/service.py.
pub mod Data
pub mod Journal
pub mod Log
pub mod Chain
pub mod State
pub mod Checks
pub mod Requests
pub mod Service
pub mod Flow
pub mod View
pub mod Writes
pub mod Decided
pub mod Closed
pub mod Opening
pub mod Flowing
pub mod Granted
pub mod Entrusted
pub mod Moves
pub mod Calls
pub mod Fair
pub mod Reading
pub mod Sound
pub mod Unreadable
pub mod Runs
pub mod Settled
pub mod Eyes
pub mod Complete
pub mod Promises
mod Tests
