-- ===== src/Agent.antt =====
-- packages/agent-runtime/src/agentRuntime.ts
pub mod Limits
pub mod Runtime
pub mod Course
mod Tests
