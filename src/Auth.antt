-- ===== src/Auth.antt =====
-- Login sessions and tokens of the gateway (openjax-gateway/src/auth).
pub mod Store
