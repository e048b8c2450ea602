-- ===== src/Arrow.antt =====
-- The Arrow log of crates/wal/src/arrow_wal.rs.
pub mod Name
pub mod Ascending
pub mod Log
pub mod Numbered
pub mod Holds
pub mod Keeps
pub mod Reopen
pub mod Session
