-- ===== src/Policy.antt =====
-- The policy centre (openjax-policy/src): rules, the decision engine, the store with its built-in
-- rule, and the versioned runtime with session overlays.
pub mod Schema
pub mod Engine
pub mod Store
pub mod Runtime
