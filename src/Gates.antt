-- ===== src/Gates.antt =====
-- The deterministic gates (backend/app/gates).
pub mod ModelPolicy
pub mod Manifest
pub mod Scrum
pub mod Release
pub mod Strategic
pub mod Tests
pub mod Scope
pub mod Evidence
