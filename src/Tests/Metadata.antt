-- ===== src/Tests/Metadata.antt =====
-- crates/catalog at a small catalog.
use potatodb.Prelude.{String, ◌≡◌, refl, sym, arith, true, false, Option, none, some}
use potatodb.Prelude.{List, [], ◌∷◌, str_eq_iff}
use potatodb.Prelude.Int.{ℤ, pos, ◌+ℤ◌, i64_max, saturating_add}
use potatodb.Prelude.HashMap.{get}
use potatodb.Catalog.Types.{TableMeta, SequenceDef}
use potatodb.Catalog.State.{Catalog, CatalogData, saved_data, snapshot, restore, set_in_transaction}
use potatodb.Catalog.Sequences.{
  InBounds, advance, settle, next_sequence_value, next_sequence_value_lem,
}
use potatodb.Catalog.WellFormed.{IsKeyed}
use potatodb.Catalog.Session.{Op, drop_table, nextval, run, IsWellFormed, run-IsWellFormed}
use potatodb.Catalog.Transactions.{rollback_restores}
use potatodb.Catalog.Persistence.{
  Fetched, found, not_found, ObjectStore, Json, ok, load, write_to_store, force_save,
  flush_if_dirty, load-force_save, flush_if_dirty_forgets,
}

abbrev pub users_table : TableMeta
users_table = record {
  name = "users";
  columns = [];
  path = "/data/users";
  partition_columns = [];
  statistics = none;
  retention_seconds = none;
  constraints = [];
  file_stats = [];
  deletion_vectors = [];
}

abbrev counter : SequenceDef
counter = record {
  name = "counter";
  current_value = pos 1;
  increment = pos 1;
  min_value = none;
  max_value = some (pos 9);
}

abbrev pub small : Catalog
small = record {
  tables = ("users", users_table) ∷ [];
  indexes = [];
  views = [];
  sequences = ("counter", counter) ∷ [];
  udfs = [];
  users = [];
  roles = [];
  user_roles = [];
  triggers = [];
  schema_version = 0;
  migrations = [];
  in_transaction = false;
  dirty = false;
}

single-IsKeyed : {V : Type 0} (name : V → String) (v : V) → IsKeyed name ((name v, v) ∷ [])
unfolding get
single-IsKeyed name v = record {
  unique = (tt, tt);
  named = λ k x e. ground (arith, str_eq_iff (name v) k);
}

empty-IsKeyed : {V : Type 0} (name : V → String) → IsKeyed name []
unfolding get
empty-IsKeyed name = record { unique = tt; named = λ k x e. cc }

small-IsWellFormed : IsWellFormed small
small-IsWellFormed = record {
  tables = single-IsKeyed (λ (x : TableMeta). x.name) users_table;
  indexes = empty-IsKeyed _;
  views = empty-IsKeyed _;
  sequences = single-IsKeyed (λ (x : SequenceDef). x.name) counter;
  udfs = empty-IsKeyed _;
}

abbrev script : List Op
script = nextval "counter" ∷ drop_table "users" ∷ []

run-IsWellFormed_example : IsWellFormed (run script small)
run-IsWellFormed_example = run-IsWellFormed script small small-IsWellFormed

rollback_restores_example :
    set_in_transaction false (restore (snapshot small) (run script (set_in_transaction true small)))
    ≡ small
rollback_restores_example = rollback_restores script small refl

abbrev bumped : SequenceDef
bumped = record counter { current_value = pos 1 +ℤ pos 1 }

next_sequence_value_lem_example :
    (◌≡◌ {A = ℤ} (pos 1) (pos 1))
    × InBounds counter (pos 1)
    × (get (next_sequence_value "counter" small).1.sequences "counter" ≡ some bumped)
    × InBounds counter (pos 1 +ℤ pos 1)
next_sequence_value_lem_example =
    next_sequence_value_lem "counter" small counter (pos 1) (unfold get in refl) (tt, omega arith)
      (unfold ◌+ℤ◌ in omega arith)
      (unfold next_sequence_value settle advance saturating_add get in refl)

abbrev exhausted : SequenceDef
exhausted = record counter { current_value = i64_max; max_value = none }

-- A serializer that keeps the data as they are, a store in memory, and one that refuses every write.
pub keep_law :
    (d b : CatalogData)
    → ◌≡◌ {A = Option CatalogData} (some d) (some b)
    → ◌≡◌ {A = Option CatalogData} (some b) (some d)
keep_law d b h = sym h

abbrev pub plain_json : Json CatalogData
plain_json = record {
  to_string = λ d. some d;
  from_slice = λ b. some b;
  tables_from_slice = λ b. none;
  from-to = keep_law;
}

pub memory_law :
    (s s' : Fetched CatalogData) (b : CatalogData)
    → ◌≡◌ {A = Option (Fetched CatalogData)} (some (found b)) (some s')
    → s' ≡ found b
memory_law s s' b h = cc

abbrev pub memory : ObjectStore CatalogData
memory = record {
  Objects = Fetched CatalogData;
  fetch = λ s. s;
  put = λ s b. some (found b);
  fetch-put = memory_law;
}

refusal_law :
    (s s' : Fetched CatalogData) (b : CatalogData)
    → ◌≡◌ {A = Option (Fetched CatalogData)} none (some s')
    → s' ≡ found b
refusal_law s s' b h = cc

abbrev read_only : ObjectStore CatalogData
read_only = record {
  Objects = Fetched CatalogData;
  fetch = λ s. s;
  put = λ s b. none;
  fetch-put = refusal_law;
}

load-force_save_example :
    load memory plain_json (found (saved_data (record small { dirty = false })))
    ≡ ok (record small { in_transaction = false; dirty = false })
load-force_save_example =
    load-force_save memory plain_json small not_found
      (found (saved_data (record small { dirty = false })))
      (unfold force_save write_to_store in refl)

abbrev dirty_small : Catalog
dirty_small = record small { dirty = true }

flush_if_dirty_forgets_example :
    flush_if_dirty read_only plain_json
      (flush_if_dirty read_only plain_json dirty_small not_found).0
      not_found
    ≡ ((flush_if_dirty read_only plain_json dirty_small not_found).0, ok not_found)
flush_if_dirty_forgets_example =
    flush_if_dirty_forgets read_only plain_json dirty_small not_found not_found refl
      (unfold flush_if_dirty write_to_store in refl)
