-- ===== src/Journal.antt =====
-- v2/error_journal.go: the journal of errors.
pub mod Model
pub mod Bounded
mod Examples
