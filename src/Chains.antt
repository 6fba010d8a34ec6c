-- ===== src/Chains.antt =====
-- The chain layer (backend/app/chains).
pub mod Context
pub mod Registry
pub mod Rounds
pub mod Executor
