-- ===== src/Agents.antt =====
-- The agents (backend/app/agents, backend/app/parsing).
pub mod Runtime
pub mod Parsing
