-- ===== src/Lib.antt =====
-- PotatoDB: a verification library for the logs, the write buffer, the catalog, transactions, access
-- control, the SQL text routines and the terminal interface.
--
-- The program is an embedded SQL database in Rust. crates/engine runs statements through
-- DataFusion; crates/wal keeps the write-ahead log that the engine appends to before it runs a
-- statement and replays when it starts; crates/catalog keeps the metadata of tables, indexes, views,
-- sequences, functions, users and roles, and saves it in an object store. The engine's statement
-- handlers call the catalog and the log, and a transaction is a snapshot of the catalog, of the tables'
-- files, and an id in the log. Rows of a plain INSERT do not go to this log: the engine keeps them in a
-- buffer per table, writes them to the Arrow log at the same time, and flushes a table's buffer to its
-- files when it is full or a statement names the table; a flush removes the table's Arrow log, and a
-- start replays what is left of it. crates/tui is a terminal interface with an editor for statements;
-- it strips comments and hands statements to the engine, as crates/repl does line by line.
--
-- The library:
--
--   Prelude       the library's names, Boolean tests, lists, membership, little-endian bytes, UTF-8,
--                 i64, and HashMap as an association list
--   Wal           crates/wal/src/lib.rs. Crc is the interface of crc32fast; Entry is WalEntry and the
--                 bytes of write_entry; Log is recover; File is Wal with its BufWriter over a file
--                 whose operations may fail, as a Device says; Writer, Codec, Torn, Total, Replay, Crash,
--                 Journal, Session and Checkpoint prove
--   Arrow         crates/wal/src/arrow_wal.rs. Ipc is the interface of the Arrow file format; Name is
--                 the names of its files, Log is ArrowWal, whose file operations may fail, as
--                 Faults says; Ascending, Numbered, Holds, Keeps, Reopen and Session prove
--   Catalog       crates/catalog/src/lib.rs. Types and State are the records, Ops the operations,
--                 Sequences is next_sequence_value, Persistence is load, force_save and
--                 flush_if_dirty over the interfaces ObjectStore and Json; WellFormed, Session,
--                 DropTable and Transactions prove
--   Engine        crates/engine/src. Policy is checkpoint_policy.rs; Autocommit is next_txn_id,
--                 wal_append_pending, wal_finish_autocommit and the log part of handle_checkpoint;
--                 Access is current_user_is_admin, user_has_privilege and enforce_access; Grants is
--                 handle_grant and handle_revoke; Parens is find_matching_paren; Uniqueness is the cache
--                 of keys for PRIMARY KEY and UNIQUE, about which Unique and Distinct prove; Validate
--                 is validate_constraints_batch, and Unmerged proves about it; Keyed proves about
--                 inserts with both; Cdc is the log of changes,
--                 record_cdc_event and the part of PotatoDB::new that reads its file over the
--                 interface SerdeJson, and Recorded proves about it
--   Txn           crates/engine/src/lib.rs. State is Transaction and Savepoint with the interface Env;
--                 Files is list_parquet_files and delete_table_storage; Control is handle_begin,
--                 handle_commit and handle_rollback; Savepoints is handle_savepoint,
--                 handle_rollback_to and handle_release_savepoint; Restores, Stack, Partial,
--                 Cleanup, Leftovers and Retained prove
--   Buffer        the write buffer of crates/engine/src/lib.rs. State is the engine's state with the
--                 interface Env of DataFusion; Flush is flush_table, flush_all,
--                 flush_buffered_for_sql, maybe_auto_analyze and drain_pending_analyze; Insert is
--                 buffer_insert_batches, Recover the part of PotatoDB::new that replays the Arrow
--                 log; Checkpoint is CHECKPOINT of that log and proves; Sound is what the theorems
--                 ask of DataFusion; Stage, Logged, Rows, Buffered, Inserted, Statements, Replay,
--                 Restart, Taken and Errors prove
--   Sql           Split is split_sql_statements of crates/engine/src/lib.rs, over the scanner in
--                 Lexer; Strip is strip_sql_comments of crates/tui/src/lib.rs and strip_line_comment of
--                 crates/repl/src/lib.rs; Csv and Parameters are split_top_level_csv and
--                 substitute_parameters of the engine; Grammar describes texts by their parts;
--                 Comments, Items and Garbled prove
--   Tui           crates/tui/src/lib.rs. App is the state, Line and Panic are its strings, History is
--                 save_history_entry and try_execute, Completion is tab_complete and
--                 build_candidates over Keywords, Query, Panes and Keys are handle_query_key, the other windows and
--                 handle_key, Export is handle_export_key and the three formats; Vectors, Typing,
--                 Emptied, Moves, Recall, Typed, Offered, Safe and Panics prove
--   Tests         the theorems at concrete inputs
--
-- Correspondence. u8, u32, u64 and usize values are natural numbers, with the modulus or the
-- saturation of the source written out; i64 values are integers with saturating_add. A String in the
-- logs is its UTF-8 bytes; the text that Sql and Tui work on is a list of code points, in which a
-- position of the source, which counts UTF-8 bytes, stays such a position. Names in the catalog are
-- strings. A HashMap is an association list in which an insertion takes away the older entry of its
-- key; its order is not relied on. A mutation returns the new state; a Result is a data type with the
-- error cases, and a panic is a value of its own. A time is a number of nanoseconds. What the engine
-- asks of object stores, the file system and DataFusion in a transaction is a field of Env. What
-- files are left is stated for a store that is Reliable: remote, and never failing. What tables hold
-- is left to a Sound Env, in which a write that returns Ok puts its batches to the table's, and no
-- other call changes rows. A file of the Arrow log is its name and bytes; its numbers stay below a
-- million in the theorems, since names are sorted as text and padded to six digits. Rows in the
-- cache of keys are lists of SQL literals, as the query of a table returns them. The texts of
-- statements that a flush looks into are a test of names of tables.
--
-- Fuel. The loop of recover takes one round more than the file has bytes, and every round that goes on
-- takes at least one byte, so that the loop always ends by its own tests.
--
-- Not modelled: the DataFusion and sqlparser calls of the statement handlers, the checks of whole
-- tables and of NOT NULL, the other caches of the engine, the full-text index, the query of the log
-- of changes, sql_helpers.rs and the engine's parsers of its own statements, mouse events, meta
-- commands and drawing of the terminal interface, display, the servers and the bindings.
-- enforce_access and GRANT start from the words of the statement. In a
-- transaction capture_snapshot is left out, whose result is ignored.
-- The conversion of values to the types of columns is a parameter of Engine.Keyed. Names of tables
-- are single path components in the Arrow log.
pub mod Prelude
pub mod Wal
pub mod Arrow
pub mod Catalog
pub mod Engine
pub mod Sql
pub mod Tui
pub mod Txn
pub mod Buffer
pub mod Tests
