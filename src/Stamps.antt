-- ===== src/Stamps.antt =====
-- v2/instr_stamp.go: which stamps a beat tells.
pub mod Entry
pub mod Room
pub mod Turn
pub mod Due
pub mod Rank
pub mod Going
mod Examples
