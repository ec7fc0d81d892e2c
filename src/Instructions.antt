-- ===== src/Instructions.antt =====
-- v2/instructions.go and the standings of v2/provider_groups.go: the zone owner's instructions.
pub mod Model
pub mod Serial
pub mod Sets
pub mod Standings
pub mod Encoding
pub mod Distinct
mod Examples
