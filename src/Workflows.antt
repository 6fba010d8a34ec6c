-- ===== src/Workflows.antt =====
-- The workflows (backend/app/workflows).
pub mod Analysis
