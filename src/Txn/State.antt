-- ===== src/Txn/State.antt =====
-- The engine's state as far as transactions use it, and what they call outside the catalog and the
-- log.
use potatodb.Prelude.{ℕ, String, Bool, Option, List}
use potatodb.Prelude.HashMap.{HashMap}
use potatodb.Wal.Crc.{Hasher}
use potatodb.Wal.File.{Device}
use potatodb.Catalog.Types.{TableMeta, ColumnDef}
use potatodb.Catalog.State.{Catalog, CatalogSnapshot}
use potatodb.Catalog.Persistence.{ObjectStore, Json}
use potatodb.Engine.Autocommit.{Journal}

-- Object stores, the file system and DataFusion. A `Disk` is all table files; `list_objects` is the
-- listing under a table's prefix, and `none` is a failure that changes nothing. `flush_all`,
-- `reload_tables` and `rewrite_table` are the engine's calls of DataFusion, with whether they
-- return Ok; registering tables there changes nothing else.
pub record Env : Type 1 where
  pub Bytes : Type 0
  pub store : ObjectStore Bytes
  pub json : Json Bytes
  pub crc : Hasher
  pub log_device : Device
  pub checkpoint_device : Device
  pub Disk : Type 0
  pub Batches : Type 0
  pub is_local_disk : Bool
  pub list_objects : Disk → String → Option (List String)
  pub delete_object : Disk → String → Option Disk
  pub remove_dir : Disk → String → Option Disk
  pub flush_all : Catalog → Disk → Catalog × Disk × Bool
  pub reload_tables : Catalog → Disk → Disk × Bool
  pub rewrite_table : String → List ColumnDef → Batches → Catalog → Disk → Catalog × Disk × Bool

pub record Savepoint (e : Env) : Type 0 where
  pub name : String
  pub catalog_snapshot : CatalogSnapshot
  pub file_snapshot : HashMap (List String)
  pub rewrite_backups : HashMap e.Batches

pub record Transaction (e : Env) : Type 0 where
  pub catalog_snapshot : CatalogSnapshot
  pub file_snapshot : HashMap (List String)
  pub deferred_deletes : List TableMeta
  pub wal_txn_id : ℕ
  pub rewrite_backups : HashMap e.Batches
  pub savepoints : List (Savepoint e)

-- The field `txn` of the journal is the log id of `active_txn`.
pub record Db (e : Env) : Type 0 where
  pub catalog : Catalog
  pub objects : e.store.Objects
  pub disk : e.Disk
  pub journal : Journal
  pub active_txn : Option (Transaction e)

pub data Error : Type 0 where
  nested_begin no_transaction : Error
  no_such_savepoint : String → Error
  io : Error

-- What a statement returns, with the state that it leaves.
pub data Reply (e : Env) : Type 0 where
  message : Db e → Reply e
  failed : Error → Db e → Reply e

infixl 5 ◌>>=◌
abbrev pub ◌>>=◌ : {e : Env} → Reply e → (Db e → Reply e) → Reply e
message d >>= f = f d
failed error d >>= f = failed error d
