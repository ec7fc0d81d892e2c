-- ===== src/Lifecycle.antt =====
-- v2/mp_key_lifecycle.go: the key lifecycle of a multi-provider zone.
-- States and Views have the data, Table the transition table with its guards and the scan of it,
-- and the other children what is proved.
pub mod States
pub mod Views
pub mod Table
pub mod Diagram
pub mod Follows
pub mod Order
pub mod Safety
pub mod Rollover
mod Examples
