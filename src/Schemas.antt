-- ===== src/Schemas.antt =====
-- The typed contracts of the harness (backend/app/constants.py, backend/app/schemas).
pub mod Constants
pub mod GateResult
pub mod Ledger
pub mod Models
pub mod Manifest
pub mod Reviews
pub mod Json
pub mod Reading
pub mod Chain
pub mod Checkpoint
