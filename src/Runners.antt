-- ===== src/Runners.antt =====
-- The sandbox that commands and writes are checked against (backend/app/runners).
pub mod Sandbox
