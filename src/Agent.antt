-- ===== src/Agent.antt =====
-- The agent (openjax-core/src/agent): its guard against loops, and the compaction of its history.
pub mod Loop
pub mod History
