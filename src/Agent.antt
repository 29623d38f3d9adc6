-- ===== src/Agent.antt =====
-- The agent: it claims signed tasks, runs them, and delivers their results (internal/agent).
pub mod Replay
pub mod Claim
pub mod Outbox
pub mod Health
pub mod Pods
