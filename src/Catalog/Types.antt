-- ===== src/Catalog/Types.antt =====
-- The metadata records of the catalog. `u64` and `usize` fields are numbers, `i64` fields integers.
use potatodb.Prelude.{ℕ, String, Bool, Option, List}
use potatodb.Prelude.Int.{ℤ}
use potatodb.Prelude.HashMap.{HashMap}

pub record ColumnDef : Type 0 where
  pub name : String
  pub data_type : String
  pub nullable : Bool

pub record ColumnStatistics : Type 0 where
  pub null_count : ℕ
  pub distinct_count : Option ℕ
  pub min_value : Option String
  pub max_value : Option String

pub record TableStatistics : Type 0 where
  pub row_count : ℕ
  pub columns : HashMap ColumnStatistics

pub record FileStats : Type 0 where
  pub path : String
  pub row_count : Option ℕ
  pub min_values : HashMap String
  pub max_values : HashMap String
  pub size_bytes : ℕ
  pub created_at : Option ℤ

pub data TableConstraint : Type 0 where
  primary_key : (columns : List String) → TableConstraint
  unique : (name : String) (columns : List String) → TableConstraint
  check : (name expr : String) → TableConstraint
  foreign_key :
      (name : String) (columns : List String) (ref_table : String) (ref_columns : List String)
      (on_delete on_update : Option String)
      → TableConstraint

pub record DeletionEntry : Type 0 where
  pub file_path : String
  pub deleted_row_indices : List ℕ
  pub timestamp_ms : ℤ

pub record TableMeta : Type 0 where
  pub name : String
  pub columns : List ColumnDef
  pub path : String
  pub partition_columns : List String
  pub statistics : Option TableStatistics
  pub retention_seconds : Option ℕ
  pub constraints : List TableConstraint
  pub file_stats : List FileStats
  pub deletion_vectors : List DeletionEntry

pub record IndexColumn : Type 0 where
  pub name : String
  pub ascending : Bool

pub record IndexDef : Type 0 where
  pub name : String
  pub table_name : String
  pub columns : List IndexColumn
  pub logical_only : Bool
  pub primary : Bool

pub record ViewDef : Type 0 where
  pub name : String
  pub sql : String
  pub materialized : Bool
  pub backing_table : Option String

pub record SequenceDef : Type 0 where
  pub name : String
  pub current_value : ℤ
  pub increment : ℤ
  pub min_value : Option ℤ
  pub max_value : Option ℤ

pub record UdfDef : Type 0 where
  pub name : String
  pub args : List String
  pub return_type : String
  pub body : String

pub record Privilege : Type 0 where
  pub kind : String
  pub table : Option String

pub record UserDef : Type 0 where
  pub name : String
  pub password : String

pub record RoleDef : Type 0 where
  pub name : String
  pub privileges : List Privilege

pub record TriggerDef : Type 0 where
  pub name : String
  pub table : String
  pub event : String
  pub timing : String
  pub body : String

pub record MigrationRecord : Type 0 where
  pub version : ℕ
  pub description : String
  pub sql : String
  pub applied_at_ms : ℤ
