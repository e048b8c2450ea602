-- ===== src/Engine.antt =====
-- crates/engine: the parts of the engine that are modelled.
pub mod Policy
pub mod Autocommit
pub mod Access
pub mod Grants
pub mod Parens
pub mod Uniqueness
pub mod Unique
pub mod Distinct
pub mod Validate
pub mod Unmerged
pub mod Keyed
pub mod Cdc
pub mod Recorded
