-- ===== src/Tui.antt =====
-- crates/tui: the state of the terminal interface and its key handling.
pub mod Line
pub mod App
pub mod Panic
pub mod History
pub mod Query
pub mod Panes
pub mod Keywords
pub mod Completion
pub mod Export
pub mod Keys
pub mod Vectors
pub mod Typing
pub mod Emptied
pub mod Moves
pub mod Recall
pub mod Typed
pub mod Offered
pub mod Safe
pub mod Panics
