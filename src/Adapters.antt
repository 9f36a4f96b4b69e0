-- ===== src/Adapters.antt =====
-- The provider adapters (packages/agent-adapters/agentexec).
pub mod Journal
pub mod RunLease
pub mod HumanControl
