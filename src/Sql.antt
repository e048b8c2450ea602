-- ===== src/Sql.antt =====
-- SQL text before it is parsed: splitting a file into statements, stripping comments, and the items
-- of an argument list.
pub mod Text
pub mod Lexer
pub mod Split
pub mod Strip
pub mod Grammar
pub mod Comments
pub mod Csv
pub mod Parameters
pub mod Garbled
pub mod Items
