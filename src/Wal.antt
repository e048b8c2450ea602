-- ===== src/Wal.antt =====
-- crates/wal/src/lib.rs: the write-ahead log.
pub mod Crc
pub mod Entry
pub mod Log
pub mod Codec
pub mod Torn
pub mod Replay
pub mod Total
pub mod Crash
pub mod File
pub mod Writer
pub mod Journal
pub mod Session
pub mod Checkpoint
