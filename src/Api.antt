-- ===== src/Api.antt =====
-- The control API (backend/app/api).
pub mod Records
pub mod Runs
pub mod Plans
pub mod Chains
pub mod Boundary
