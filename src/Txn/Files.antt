-- ===== src/Txn/Files.antt =====
-- Table files: `list_parquet_files`, `delete_table_storage`, and the loops of the transaction
-- handlers over them.
use mathlib.Core.List.{reverse}
use potatodb.Prelude.{
  ℕ, String, Bool, true, false, ◌||◌, ◌&&◌, Option, none, some, List, [], ◌∷◌, map, filter, ◌==◌,
  if◌then◌else◌, str_eq,
}
use potatodb.Prelude.HashMap.{HashMap}
use potatodb.Sql.Text.{codes}
use potatodb.Catalog.Types.{TableMeta}
use potatodb.Txn.State.{Env}

unfoldable pub is_prefix : List ℕ → List ℕ → Bool
is_prefix [] s = true
is_prefix (c ∷ p) [] = false
is_prefix (c ∷ p) (d ∷ s) = (c == d) && is_prefix p s

-- `path.ends_with(".parquet")`
unfoldable pub is_parquet : String → Bool
unfolding is_prefix
is_parquet path = is_prefix (reverse (codes ".parquet")) (reverse (codes path))

unfoldable pub has_name : List String → String → Bool
has_name [] x = false
has_name (y ∷ ys) x = str_eq y x || has_name ys x

abbrev pub keys : {V : Type 0} → HashMap V → List String
keys {V} m = map (λ (entry : String × V). entry.0) m

module _ (e : Env) where
  open e use {Disk, list_objects, delete_object, remove_dir, is_local_disk}

  unfoldable pub list_parquet_files : Disk → String → Option (List String)
  unfolding is_parquet
  list_parquet_files d table = elim (list_objects d table) [
    | none ↦ none
    | some entries ↦ some (filter is_parquet entries)
  ]

  abbrev with_files :
      String
      → Option (List String)
      → Option (HashMap (List String))
      → Option (HashMap (List String))
  with_files table none later = none
  with_files table (some files) none = none
  with_files table (some files) (some later) = some ((table, files) ∷ later)

  -- The files of each table; a listing that fails ends the statement.
  unfoldable pub snapshot_files : Disk → List String → Option (HashMap (List String))
  unfolding list_parquet_files
  snapshot_files d [] = some []
  snapshot_files d (table ∷ tables) =
      with_files table (list_parquet_files d table) (snapshot_files d tables)

  -- `let _ = store.delete(f)`
  abbrev pub try_delete : Disk → String → Disk
  try_delete d f = elim (delete_object d f) [ none ↦ d | some d' ↦ d' ]

  -- Of the files of a table those are deleted that are not in the snapshot.
  unfoldable pub delete_new : List String → List String → Disk → Disk
  unfolding has_name
  delete_new old [] d = d
  delete_new old (f ∷ files) d = delete_new old files (if has_name old f then d else try_delete d f)

  unfoldable pub delete_new_files : HashMap (List String) → Disk → Disk
  unfolding list_parquet_files delete_new
  delete_new_files [] d = d
  delete_new_files ((table, old) ∷ snapshot) d =
      delete_new_files snapshot
        (elim (list_parquet_files d table) [ none ↦ d | some files ↦ delete_new old files d ])

  -- `store.delete(..)?` for each entry
  unfoldable pub delete_entries : List String → Disk → Disk × Bool
  delete_entries [] d = (d, true)
  delete_entries (f ∷ entries) d = elim (delete_object d f) [
    | none ↦ (d, false)
    | some d' ↦ delete_entries entries d'
  ]

  -- The state, and whether it returned Ok; a directory that is not there is no error, and is the
  -- interface's matter.
  unfoldable pub delete_table_storage : TableMeta → Disk → Disk × Bool
  unfolding delete_entries
  delete_table_storage meta d =
      if is_local_disk
      then elim (remove_dir d meta.path) [ none ↦ (d, false) | some d' ↦ (d', true) ]
      else elim (list_objects d meta.name) [
        | none ↦ (d, false)
        | some entries ↦ delete_entries entries d
      ]

  -- Storage of the tables that are not in the snapshot; errors are ignored.
  unfoldable pub delete_new_tables : HashMap (List String) → HashMap TableMeta → Disk → Disk
  unfolding delete_table_storage has_name
  delete_new_tables snapshot [] d = d
  delete_new_tables snapshot ((name, meta) ∷ tables) d =
      delete_new_tables snapshot tables
        (if has_name (keys snapshot) name then d else (delete_table_storage meta d).0)

  unfoldable pub delete_deferred : List TableMeta → Disk → Disk × Bool
  unfolding delete_table_storage
  delete_deferred [] d = (d, true)
  delete_deferred (meta ∷ metas) d =
      let one = delete_table_storage meta d in
      let others = delete_deferred metas one.0 in if one.1 then others else one
