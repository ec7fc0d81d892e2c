-- ===== src/KeyRounds.antt =====
-- v2/key_rounds.go: the rounds of requests for a zone's SIG(0) key.
pub mod Model
pub mod Tracker
pub mod Kept
pub mod Sound
pub mod Settled
pub mod Decided
pub mod Once
mod Examples
