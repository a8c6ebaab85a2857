-- ===== src/Tests.antt =====
-- Runs of the theorems at concrete inputs.
mod Rules
mod Calls
mod Logins
mod Streams
mod Sessions
mod Transcripts
mod Titles
