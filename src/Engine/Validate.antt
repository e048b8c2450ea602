-- ===== src/Engine/Validate.antt =====
-- `validate_constraints_batch` in crates/engine/src/lib.rs.
use potatodb.Prelude.{
  ℕ, ◌+◌, ◌-◌, String, Bool, true, false, not, ◌&&◌, Option, none, some, List, [], ◌∷◌, ◌++◌,
  filter, length, is_empty, if◌then◌else◌, ltb, ◌==◌, str_eq,
}
use potatodb.Catalog.Types.{TableMeta, TableConstraint}
use potatodb.Buffer.State.{ConstraintValidationPhase, before_insert, after_insert}
use potatodb.Engine.Uniqueness.{
  Tuple, KeySet, Cache, join, has_null, contains, insert_key, uniqueness_cache_key_pk,
  uniqueness_cache_key_unique, check_uniqueness_against_table_cached,
}

-- A batch: the number of its columns, and its rows as SQL literals.
pub record Batch : Type 0 where
  pub width : ℕ
  pub rows : List (List String)

-- A query that counts: its result, an error of planning it, or one of running it.
pub data Counted : Type 0 where
  counted : ℕ → Counted
  refused broken : Counted

-- The queries about a table. `select` is `SELECT` of columns as literals; `violating` counts the
-- rows of the batches for which an expression does not hold; `orphans` counts the rows without a
-- row that they refer to; the Booleans say whether the checks of the whole table return Ok.
pub record Queries : Type 0 where
  pub select : List String → Option (List Tuple)
  pub violating : String → List String → List Batch → Counted
  pub orphans : List String → String → List String → Option ℕ
  pub validate_table_constraints : Bool
  pub validate_check_constraints : Bool

abbrev pub Merges : Type 0
Merges = List (String × List Tuple)

pub data Verdict : Type 0 where
  valid : Merges → Cache → Verdict
  invalid : Cache → Verdict
  panicked : Verdict

-- The position of a name; the last one counts.
unfoldable pub position_from : ℕ → List String → String → Option ℕ
position_from i [] name = none
position_from i (c ∷ columns) name = elim (position_from (i + 1) columns name) [
  | some j ↦ some j
  | none ↦ if str_eq c name then some i else none
]

abbrev pub cons_option : {A : Type 0} → Option A → Option (List A) → Option (List A)
cons_option none rest = none
cons_option (some x) none = none
cons_option (some x) (some xs) = some (x ∷ xs)

-- The positions of all columns of a constraint; `none` where one of them is missing.
unfoldable pub positions : List String → List String → Option (List ℕ)
unfolding position_from
positions target_columns [] = some []
positions target_columns (c ∷ columns) =
    cons_option (position_from 0 target_columns c) (positions target_columns columns)

abbrev pub nth : List String → ℕ → Option String
nth [] n = none
nth (x ∷ xs) n = let rest = nth xs (n - 1) in if n == 0 then some x else rest

-- A row's tuple; a batch without the column panics.
abbrev pub tuple_of : List String → List ℕ → Option Tuple
tuple_of row [] = some []
tuple_of row (i ∷ is) = cons_option (nth row i) (tuple_of row is)

pub data Collected : Type 0 where
  collected : List Tuple → Collected
  violated no_column : Collected

abbrev pub with_tuple : Tuple → Collected → Collected
with_tuple tuple (collected values) = collected (tuple ∷ values)
with_tuple tuple violated = violated
with_tuple tuple no_column = no_column

-- The tuples of the rows, which must be distinct. A tuple with a NULL is an error of a PRIMARY KEY
-- and passed over by UNIQUE.
unfoldable pub collect : Bool → List ℕ → List (List String) → KeySet → Collected
unfolding join
collect skip is [] seen = collected []
collect skip is (row ∷ rows) seen = elim (tuple_of row is) [
  | none ↦ no_column
  | some tuple ↦
      (let rest = collect skip is rows seen in
        let rest_seen = collect skip is rows (insert_key (join tuple) seen) in
        if has_null tuple
        then (if skip then rest else violated)
        else if contains seen (join tuple)
        then violated
        else with_tuple tuple rest_seen)
]

abbrev pub all_rows : List Batch → List (List String)
all_rows [] = []
all_rows (b ∷ batches) = b.rows ++ all_rows batches

abbrev pub non_empty : List Batch → List Batch
non_empty batches = filter (λ (b : Batch). not (is_empty b.rows)) batches

-- The rest of the table is asked, and no keys are returned.
abbrev pub whole_table : Bool → Cache → Verdict
whole_table true cache = valid [] cache
whole_table false cache = invalid cache

module _ (phase : ConstraintValidationPhase) (q : Queries) (table : String)
    (target_columns : List String) (batches : List Batch) where
  -- Whether the constraints on the rows themselves are checked, and not the references.
  abbrev pub is_before : Bool
  is_before = elim phase [ before_insert ↦ true | after_insert ↦ false ]

  abbrev pub looked_up_keys :
      (Merges → Cache → Verdict) → String → List Tuple → Merges → Cache × Bool → Verdict
  looked_up_keys next cache_key values merges (cache, true) =
      next (merges ++ (cache_key, values) ∷ []) cache
  looked_up_keys next cache_key values merges (cache, false) = invalid cache

  abbrev pub with_collected :
      Bool
      → (Merges → Cache → Verdict)
      → String
      → List String
      → Merges
      → Cache
      → Collected
      → Verdict
  with_collected skip next cache_key columns merges cache violated = invalid cache
  with_collected skip next cache_key columns merges cache no_column = panicked
  with_collected skip next cache_key columns merges cache (collected []) = next merges cache
  with_collected skip next cache_key columns merges cache (collected (v ∷ values)) =
      looked_up_keys next cache_key (v ∷ values) merges
        (check_uniqueness_against_table_cached cache_key skip (q.select columns) (v ∷ values) cache)

  abbrev pub with_positions :
      Bool
      → (Merges → Cache → Verdict)
      → String
      → List String
      → Merges
      → Cache
      → Option (List ℕ)
      → Verdict
  with_positions skip next cache_key columns merges cache none =
      whole_table q.validate_table_constraints cache
  with_positions skip next cache_key columns merges cache (some is) =
      with_collected skip next cache_key columns merges cache
        (collect skip is (all_rows batches) [])

  abbrev pub with_count : (Merges → Cache → Verdict) → Merges → Cache → Counted → Verdict
  with_count next merges cache (counted n) = if ltb 0 n then invalid cache else next merges cache
  with_count next merges cache refused = whole_table q.validate_check_constraints cache
  with_count next merges cache broken = invalid cache

  abbrev pub check_rows :
      (Merges → Cache → Verdict) → String → Merges → Cache → List Batch → Verdict
  check_rows next expr merges cache [] = next merges cache
  check_rows next expr merges cache (b ∷ rest) =
      if b.width == length target_columns
      then with_count next merges cache (q.violating expr target_columns (b ∷ rest))
      else whole_table q.validate_check_constraints cache

  abbrev pub with_orphans : (Merges → Cache → Verdict) → Merges → Cache → Option ℕ → Verdict
  with_orphans next merges cache none = invalid cache
  with_orphans next merges cache (some n) = if ltb 0 n then invalid cache else next merges cache

  -- One constraint, with what follows it.
  abbrev pub validate_constraint :
      (Merges → Cache → Verdict) → TableConstraint → Merges → Cache → Verdict
  validate_constraint next (TableConstraint.primary_key columns) merges cache =
      if is_before
      then with_positions false next (uniqueness_cache_key_pk table columns) columns merges cache
          (positions target_columns columns)
      else next merges cache
  validate_constraint next (TableConstraint.unique name columns) merges cache =
      if is_before
      then with_positions true next (uniqueness_cache_key_unique table name) columns merges cache
          (positions target_columns columns)
      else next merges cache
  validate_constraint next (TableConstraint.check name expr) merges cache =
      if is_before then check_rows next expr merges cache (non_empty batches) else next merges cache
  validate_constraint next (TableConstraint.foreign_key name columns ref_table ref_columns d u)
        merges cache =
      if is_before
      then next merges cache
      else if (length columns == length ref_columns) && not (is_empty columns)
      then with_orphans next merges cache (q.orphans columns ref_table ref_columns)
      else invalid cache

  unfoldable pub validate_constraints : List TableConstraint → Merges → Cache → Verdict
  unfolding positions collect check_uniqueness_against_table_cached uniqueness_cache_key_pk
      uniqueness_cache_key_unique
  validate_constraints [] merges cache = valid merges cache
  validate_constraints (constraint ∷ rest) merges cache =
      validate_constraint (validate_constraints rest) constraint merges cache

  -- `meta` is the table's entry in the catalog.
  unfoldable pub validate_constraints_batch : Option TableMeta → Cache → Verdict
  unfolding validate_constraints
  validate_constraints_batch meta cache =
      if is_empty batches && is_before then valid [] cache else elim meta [
        | none ↦ valid [] cache
        | some m ↦ validate_constraints m.constraints [] cache
      ]
