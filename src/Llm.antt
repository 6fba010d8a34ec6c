-- ===== src/Llm.antt =====
-- The language model layer (backend/app/llm).
pub mod Recorder
pub mod Router
