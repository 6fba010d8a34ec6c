-- ===== src/Handlers.antt =====
-- The handlers (backend/app/handlers).
pub mod Authority
pub mod Base
pub mod Control
pub mod Verification
pub mod Release
pub mod Certified
pub mod Modest
pub mod Careful
pub mod Host
pub mod Commands
pub mod Ran
pub mod Gathered
pub mod Implementation
pub mod Reproduction
pub mod Plain
pub mod Advisories
pub mod Dependency
pub mod CiFailure
pub mod Documentation
pub mod Security
pub mod Analysis
pub mod Registered
pub mod Quarantined
pub mod Recorded
pub mod Evidenced
pub mod Outcomes
pub mod Reported
pub mod Accounted
pub mod Built
