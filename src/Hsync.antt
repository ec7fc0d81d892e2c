-- ===== src/Hsync.antt =====
-- v2/hsync: the engine that keeps the peers of the zones and their beats.
pub mod Schedule
pub mod Pace
pub mod Notes
pub mod Retriers
pub mod Spacing
pub mod Registry
pub mod Reconciled
pub mod Prune
pub mod Held
mod Examples
