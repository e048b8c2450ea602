-- ===== src/Buffer/State.antt =====
-- The engine's state as far as buffered inserts use it, and what they call outside it.
use potatodb.Prelude.{ℕ, ◌+◌, ◌-◌, ◌^◌, min, String, Bool, Option, none, some, List, [], ◌∷◌, map}
use potatodb.Prelude.HashMap.{HashMap}
use potatodb.Catalog.Types.{TableMeta, ColumnDef}
use potatodb.Catalog.State.{Catalog}
use potatodb.Arrow.Log.{Ipc, ArrowWal}

pub data ConstraintValidationPhase : Type 0 where
  before_insert after_insert : ConstraintValidationPhase

-- DataFusion with the tables' files and the caches of keys: a `World`. `validate` is
-- `validate_constraints_batch`, whose keys a successful flush merges; `write` registers the batches
-- as a temporary table and runs INSERT … SELECT; `refresh`, `compact` and `analyze` are
-- `refresh_table_file_stats_light`, `maybe_auto_compact` and `handle_analyze`. The Booleans say
-- whether Ok was returned.
pub record Env : Type 1 where
  pub ipc : Ipc
  pub num_rows : ipc.Batch → ℕ
  pub memory_size : ipc.Batch → ℕ
  pub World : Type 0
  pub Merges : Type 0
  pub validate :
      ConstraintValidationPhase
      → String
      → List String
      → List ipc.Batch
      → Catalog
      → World
      → World × Option Merges
  pub write : ℕ → String → Option (List String) → List ipc.Batch → Catalog → World → World × Bool
  pub merge : Merges → World → World
  pub refresh : String → Catalog → World → Catalog × World × Bool
  pub compact : String → Catalog → World → Catalog × World × Bool
  pub analyze : String → Catalog → World → Catalog × World

pub record BufferedInsert (e : Env) : Type 0 where
  pub columns : Option (List String)
  pub batches : List e.ipc.Batch
  pub row_count : ℕ
  pub approx_bytes : ℕ
  pub first_buffered_at : ℕ

pub record Db (e : Env) : Type 0 where
  pub catalog : Catalog
  pub world : e.World
  pub arrow_wal : Option ArrowWal
  pub replaying_wal : Bool
  pub write_buffer : HashMap (BufferedInsert e)
  pub row_threshold : ℕ
  pub byte_threshold : ℕ
  pub time_threshold : ℕ
  pub temp_table_counter : ℕ
  pub rows_since_analyze : HashMap ℕ
  pub auto_analyze_threshold_rows : ℕ
  pub pending_analyze_tables : List String

-- What a call returns, with the state that it leaves.
pub data Reply (e : Env) (A : Type 0) : Type 0 where
  done : A → Db e → Reply e A
  failed : Db e → Reply e A

infixl 5 ◌>>=◌
abbrev pub ◌>>=◌ : {e : Env} {A B : Type 0} → Reply e A → (A → Db e → Reply e B) → Reply e B
done a d >>= f = f a d
failed d >>= f = failed d

-- `saturating_add` of `usize` and `u64`
abbrev pub saturating : ℕ → ℕ → ℕ
saturating a b = min (a + b) (2 ^ 64 - 1)

abbrev pub total : {A : Type 0} → (A → ℕ) → List A → ℕ
total size [] = 0
total size (x ∷ xs) = size x + total size xs

abbrev pub names_of : Option TableMeta → List String
names_of none = []
names_of (some meta) = map (λ (c : ColumnDef). c.name) meta.columns

abbrev pub target_columns : Option (List String) → Option TableMeta → List String
target_columns (some columns) meta = columns
target_columns none meta = names_of meta
