-- ===== src/Storage.antt =====
-- Storage: artifacts, evidence, runs (backend/app/storage).
pub mod EvidenceWriter
pub mod ArtifactStore
