-- ===== src/Buffer.antt =====
-- The write buffer of crates/engine/src/lib.rs, and its recovery from the Arrow log.
pub mod State
pub mod Flush
pub mod Insert
pub mod Recover
pub mod Sound
pub mod Stage
pub mod Logged
pub mod Rows
pub mod Buffered
pub mod Inserted
pub mod Statements
pub mod Replay
pub mod Restart
pub mod Taken
pub mod Errors
pub mod Checkpoint
