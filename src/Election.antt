-- ===== src/Election.antt =====
-- v2/parentsync_leader.go: the leader election of a provider group.
pub mod Model
pub mod Wraps
pub mod Lead
pub mod Rounds
pub mod Manager
pub mod Heard
pub mod Winner
pub mod Terms
pub mod Events
pub mod OneLeader
pub mod Full
pub mod Honest
pub mod Says
pub mod Keeping
pub mod Truthful
pub mod Ending
pub mod Deciding
pub mod Voting
pub mod Hearing
pub mod Network
pub mod Agreement
pub mod Agreed
pub mod Renewal
pub mod Ends
mod Examples
