-- ===== src/Node.antt =====
-- internal/node: the resident agent.
pub mod Identity
pub mod Config
pub mod Executor
pub mod Client
pub mod Agent
pub mod Reporter
