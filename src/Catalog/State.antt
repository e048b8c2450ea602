-- ===== src/Catalog/State.antt =====
-- The catalog's state, what is saved of it, and its snapshots.
use potatodb.Prelude.{ℕ, String, Bool, true, false, List, [], if◌then◌else◌}
use potatodb.Prelude.HashMap.{HashMap}
use potatodb.Catalog.Types.{
  TableMeta, IndexDef, ViewDef, SequenceDef, UdfDef, UserDef, RoleDef, TriggerDef, MigrationRecord,
}

-- What is written to the store.
pub record CatalogData : Type 0 where
  pub tables : HashMap TableMeta
  pub indexes : HashMap IndexDef
  pub views : HashMap ViewDef
  pub sequences : HashMap SequenceDef
  pub udfs : HashMap UdfDef
  pub users : HashMap UserDef
  pub roles : HashMap RoleDef
  pub user_roles : HashMap (List String)
  pub triggers : HashMap TriggerDef
  pub schema_version : ℕ
  pub migrations : List MigrationRecord

-- A clone of all catalog data.
pub record CatalogSnapshot : Type 0 where
  pub tables : HashMap TableMeta
  pub indexes : HashMap IndexDef
  pub views : HashMap ViewDef
  pub sequences : HashMap SequenceDef
  pub udfs : HashMap UdfDef
  pub users : HashMap UserDef
  pub roles : HashMap RoleDef
  pub user_roles : HashMap (List String)
  pub triggers : HashMap TriggerDef
  pub schema_version : ℕ
  pub migrations : List MigrationRecord

-- The live catalog; the object store and the path in it are arguments of what uses them.
pub record Catalog : Type 0 where
  pub tables : HashMap TableMeta
  pub indexes : HashMap IndexDef
  pub views : HashMap ViewDef
  pub sequences : HashMap SequenceDef
  pub udfs : HashMap UdfDef
  pub users : HashMap UserDef
  pub roles : HashMap RoleDef
  pub user_roles : HashMap (List String)
  pub triggers : HashMap TriggerDef
  pub schema_version : ℕ
  pub migrations : List MigrationRecord
  pub in_transaction : Bool
  pub dirty : Bool

unfoldable pub snapshot : Catalog → CatalogSnapshot
snapshot c = record {
  tables = c.tables;
  indexes = c.indexes;
  views = c.views;
  sequences = c.sequences;
  udfs = c.udfs;
  users = c.users;
  roles = c.roles;
  user_roles = c.user_roles;
  triggers = c.triggers;
  schema_version = c.schema_version;
  migrations = c.migrations;
}

unfoldable pub restore : CatalogSnapshot → Catalog → Catalog
restore s c = record {
  tables = s.tables;
  indexes = s.indexes;
  views = s.views;
  sequences = s.sequences;
  udfs = s.udfs;
  users = s.users;
  roles = s.roles;
  user_roles = s.user_roles;
  triggers = s.triggers;
  schema_version = s.schema_version;
  migrations = s.migrations;
  in_transaction = c.in_transaction;
  dirty = c.dirty;
}

-- The data that `write_to_store` serializes.
unfoldable pub saved_data : Catalog → CatalogData
saved_data c = record {
  tables = c.tables;
  indexes = c.indexes;
  views = c.views;
  sequences = c.sequences;
  udfs = c.udfs;
  users = c.users;
  roles = c.roles;
  user_roles = c.user_roles;
  triggers = c.triggers;
  schema_version = c.schema_version;
  migrations = c.migrations;
}

-- `load` of data that was read back: a catalog outside any transaction, with nothing to flush.
unfoldable pub from_data : CatalogData → Catalog
from_data d = record {
  tables = d.tables;
  indexes = d.indexes;
  views = d.views;
  sequences = d.sequences;
  udfs = d.udfs;
  users = d.users;
  roles = d.roles;
  user_roles = d.user_roles;
  triggers = d.triggers;
  schema_version = d.schema_version;
  migrations = d.migrations;
  in_transaction = false;
  dirty = false;
}

-- The catalog of a store that holds only a map of tables, or nothing.
unfoldable pub from_tables : HashMap TableMeta → Catalog
from_tables tables = record {
  tables = tables;
  indexes = [];
  views = [];
  sequences = [];
  udfs = [];
  users = [];
  roles = [];
  user_roles = [];
  triggers = [];
  schema_version = 0;
  migrations = [];
  in_transaction = false;
  dirty = false;
}

-- `save`: the changed catalog waits for `flush_if_dirty`, or for the end of the transaction.
unfoldable pub save : Catalog → Catalog
save c = if c.in_transaction then c else record c { dirty = true }

unfoldable pub set_in_transaction : Bool → Catalog → Catalog
set_in_transaction active c = record c { in_transaction = active }
