-- ===== src/Judge.antt =====
-- v2/transition_judge.go: whether a change of a zone's instructions may be carried out.
pub mod Model
pub mod Rules
pub mod Agreed
pub mod Decides
pub mod Verdict
pub mod Order
mod Examples
