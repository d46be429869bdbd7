-- ===== src/Cache.antt =====
-- The shared cache: src/ndt_agents/cache/service.py and src/ndt_agents/cache/models.py.
pub mod Models
pub mod Backend
pub mod Service
pub mod Lookups
pub mod Runs
pub mod Served
pub mod Isolation
pub mod Counted
pub mod Admission
pub mod Entry
pub mod Distinct
pub mod Invalidation
mod Tests
