-- ===== src/Tools.antt =====
-- The tool layer (openjax-core/src/tools): tool calls, their policy input, and the orchestrator that
-- asks the policy centre and the user before it runs a tool.
pub mod Invocation
pub mod Orchestrator
