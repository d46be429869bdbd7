-- ===== src/Lifecycle.antt =====
-- Governed retention and deletion: src/ndt_agents/lifecycle/service.py.
pub mod Data
pub mod Guards
pub mod Objects
pub mod Service
pub mod Good
pub mod Keeping
pub mod Guarded
pub mod Deletion
pub mod Erased
pub mod Runs
pub mod Promises
mod Tests
pub mod Erasure
