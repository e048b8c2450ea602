-- ===== src/Tests.antt =====
-- The theorems at concrete inputs, and runs of the definitions.
mod Journal
mod Metadata
mod Rights
mod Hasher
mod Text
mod Statements
mod Terminal
mod Transactions
mod Rows
mod Keys
mod Changes
