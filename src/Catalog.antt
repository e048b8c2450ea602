-- ===== src/Catalog.antt =====
-- crates/catalog/src/lib.rs: table and index metadata, sequences, users, and their persistence.
pub mod Types
pub mod State
pub mod Ops
pub mod Sequences
pub mod WellFormed
pub mod Session
pub mod DropTable
pub mod Transactions
pub mod Persistence
