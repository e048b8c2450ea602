-- ===== src/Txn.antt =====
-- Explicit transactions and savepoints of crates/engine/src/lib.rs.
pub mod State
pub mod Files
pub mod Control
pub mod Savepoints
pub mod Restores
pub mod Stack
pub mod Partial
pub mod Cleanup
pub mod Leftovers
pub mod Retained
