-- ===== src/Gossip.antt =====
-- v2/gossip.go: the gossip state table, its merging and what is built from it.
pub mod Model
pub mod Merge
pub mod Newest
pub mod Terms
pub mod Gate
pub mod Mutual
pub mod Local
pub mod Rows
pub mod Build
pub mod Copied
pub mod Exchange
mod Examples
