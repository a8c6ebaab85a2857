-- ===== src/Sandbox.antt =====
-- The sandbox's reading of commands and results (openjax-core/src/sandbox).
pub mod Risk
