-- ===== src/Gateway/Index.antt =====
-- openjax-gateway/src/transcript/session_index_store.rs: the index of sessions.
pub mod Types
pub mod Entries
pub mod Disk
pub mod Store
pub mod Updates
pub mod Order
pub mod Replay
pub mod Again
pub mod Sound
pub mod Startup
pub mod Calls
pub mod Keeps
pub mod Runs
