-- ===== src/Runtime.antt =====
-- The runtime around the chain executor (backend/app/runtime).
pub mod Workspace
