-- ===== src/Gateway.antt =====
-- The gateway's session state (openjax-gateway/src/state) and the replay window it stands on.
pub mod Replay
pub mod Nodes
pub mod Session
pub mod RateLimit
pub mod Index
pub mod Listing
pub mod Transcript
pub mod Titles
