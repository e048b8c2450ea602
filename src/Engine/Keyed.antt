-- ===== src/Engine/Keyed.antt =====
-- Inserts into a table with a PRIMARY KEY, from the check to the merged keys: the loop of
-- `flush_table` over the keys, and what the checks keep of the table.
use potatodb.Prelude.{ℕ, ◌≡◌, String, Option, none, some, List, [], ◌∷◌, ◌++◌, map}
use potatodb.Catalog.Types.{TableMeta, TableConstraint}
use potatodb.Buffer.State.{before_insert}
use potatodb.Engine.Uniqueness.{
  Tuple, Cache, merge_uniqueness_keys, invalidate_uniqueness_cache_for_table,
}
use potatodb.Engine.Validate.{
  Batch, Queries, Merges, Verdict, valid, invalid, panicked, Collected, collected, violated,
  no_column, positions, tuple_of, all_rows, validate_constraints, validate_constraints_batch,
}
use potatodb.Engine.Distinct.{Distinct}

unfoldable pub merge_all : Merges → Cache → Cache
unfolding merge_uniqueness_keys
merge_all [] cache = cache
merge_all ((cache_key, keys) ∷ merges) cache =
    merge_all merges (merge_uniqueness_keys cache_key keys cache)

abbrev pub keyed_rows : List ℕ → List (List String) → List Tuple
keyed_rows is [] = []
keyed_rows is (row ∷ rows) =
    let rest = keyed_rows is rows in
    elim (tuple_of row is) [ none ↦ rest | some tuple ↦ tuple ∷ rest ]

-- The values of the key's columns in the rows of an insert.
abbrev pub keyed : Option (List ℕ) → List Batch → List Tuple
keyed none batches = []
keyed (some is) batches = keyed_rows is (all_rows batches)

-- An insert of batches for these target columns, or other rows after a rewrite of the table.
pub data Change : Type 0 where
  insert_batches : List String → List Batch → Change
  rewrite_rows : List Tuple → Change

module _ (q : Queries) (table : String) (columns : List String) (meta : TableMeta)
    (cast : Tuple → Tuple) where
  -- The write converts values to the types of the columns: `cast` of a checked tuple is what the
  -- query of the table then returns.
  abbrev pub kept : List Tuple → List Tuple → Cache → Verdict → List Tuple × Cache
  kept rows new cache (valid merges cache1) = (rows ++ map cast new, merge_all merges cache1)
  kept rows new cache (invalid cache1) = (rows, cache1)
  kept rows new cache panicked = (rows, cache)

  unfoldable pub change : Change → List Tuple × Cache → List Tuple × Cache
  unfolding validate_constraints_batch positions merge_all invalidate_uniqueness_cache_for_table
  change (insert_batches target_columns batches) (rows, cache) =
      kept rows (keyed (positions target_columns columns) batches) cache (
        validate_constraints_batch before_insert (record q { select = λ cs. some rows }) table
          target_columns batches (some meta) cache)
  change (rewrite_rows rows) (old, cache) =
      (rows, invalidate_uniqueness_cache_for_table table cache)

  unfoldable pub changes : List Change → List Tuple × Cache → List Tuple × Cache
  unfolding change
  changes [] x = x
  changes (c ∷ cs) x = changes cs (change c x)

  -- Inserts have all columns of the key, with values that the write leaves as they are, and
  -- rewritten rows are distinct.
  abbrev pub Complete : List Change → Type 0
  Complete [] = Unit
  Complete (insert_batches target_columns batches ∷ cs) =
      (is : List ℕ) × (positions target_columns columns ≡ some is)
      × (map cast (keyed (some is) batches) ≡ keyed (some is) batches)
      × Complete cs
  Complete (rewrite_rows rows ∷ cs) = Distinct rows × Complete cs

-- The same without a conversion.
abbrev unchanged : List Tuple → List Tuple → Cache → Verdict → List Tuple × Cache
unchanged rows new cache (valid merges cache1) = (rows ++ new, merge_all merges cache1)
unchanged rows new cache (invalid cache1) = (rows, cache1)
unchanged rows new cache panicked = (rows, cache)

-- All rows are collected for a PRIMARY KEY.
abbrev IsAll : List Tuple → Collected → Type 0
IsAll all (collected values) = all ≡ values
IsAll all violated = Unit
IsAll all no_column = Unit

module _ (q : Queries) (table : String) (columns : List String) (meta : TableMeta)
    (only : meta.constraints ≡ TableConstraint.primary_key columns ∷ []) where
  -- What follows the key's constraint: nothing.
  abbrev last : List String → List Batch → List Tuple → Merges → Cache → Verdict
  last target_columns batches rows =
      validate_constraints before_insert (record q { select = λ cs. some rows }) table
        target_columns batches []
