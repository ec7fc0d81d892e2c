-- ===== src/Senders.antt =====
-- v2/sender_rule.go: which senders' messages are taken.
pub mod Rules
pub mod Taken
mod Examples
