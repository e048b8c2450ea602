-- ===== src/Engine/Uniqueness.antt =====
-- The cache of the keys of PRIMARY KEY and UNIQUE constraints in crates/engine/src/lib.rs:
-- `invalidate_uniqueness_cache_for_table`, `ensure_uniqueness_loaded`, `merge_uniqueness_keys` and
-- `check_uniqueness_against_table_cached`.
use Prim.Native.String.{◌++◌ as append}
use text.Mathlib.Text.{starts_with}
use potatodb.Prelude.{
  String, Bool, false, not, ◌&&◌, Option, none, some, List, [], ◌∷◌, any, str_eq, if◌then◌else◌,
}
use potatodb.Prelude.HashMap.{HashMap, get, insert}

-- A tuple of SQL literals, one for each column of the constraint.
abbrev pub Tuple : Type 0
Tuple = List String

-- A `HashSet` of keys; the order is not looked at.
abbrev pub KeySet : Type 0
KeySet = List String

abbrev pub Cache : Type 0
Cache = HashMap KeySet

-- `tuple.join("\x1f")`
unfoldable pub join : Tuple → String
join [] = ""
join (v ∷ []) = v
join (v ∷ rest) = append v (append "\u{1f}" (join rest))

unfoldable pub uniqueness_cache_key_pk : String → List String → String
unfolding join
uniqueness_cache_key_pk table columns =
    append "pk\u{1f}" (append table (append "\u{1f}" (join columns)))

unfoldable pub uniqueness_cache_key_unique : String → String → String
uniqueness_cache_key_unique table constraint_name =
    append "uq\u{1f}" (append table (append "\u{1f}" constraint_name))

-- `retain` by the keys of a map
unfoldable pub retain_keys : (String → Bool) → Cache → Cache
retain_keys p [] = []
retain_keys p ((k, set) ∷ cache) =
    let rest = retain_keys p cache in if p k then (k, set) ∷ rest else rest

unfoldable pub invalidate_uniqueness_cache_for_table : String → Cache → Cache
unfolding retain_keys
invalidate_uniqueness_cache_for_table table cache =
    let prefix_pk = append "pk\u{1f}" (append table "\u{1f}") in
    let prefix_uq = append "uq\u{1f}" (append table "\u{1f}") in
    retain_keys (λ k. not (starts_with k prefix_pk) && not (starts_with k prefix_uq)) cache

abbrev pub has_null : Tuple → Bool
has_null tuple = any (λ v. str_eq v "NULL") tuple

abbrev pub contains : KeySet → String → Bool
contains set key = any (λ k. str_eq k key) set

abbrev pub insert_key : String → KeySet → KeySet
insert_key key set = if contains set key then set else key ∷ set

-- The keys of a table's rows; rows with a NULL are left out for UNIQUE.
unfoldable pub insert_rows : Bool → List Tuple → KeySet → KeySet
unfolding join
insert_rows skip_null_rows [] set = set
insert_rows skip_null_rows (tuple ∷ rows) set =
    insert_rows skip_null_rows rows
      (if skip_null_rows && has_null tuple then set else insert_key (join tuple) set)

-- `rows` is what `SELECT … FROM` the table returns, as literals, or its error.
unfoldable pub ensure_uniqueness_loaded : String → Bool → Option (List Tuple) → Cache → Option Cache
unfolding insert_rows get insert
ensure_uniqueness_loaded cache_key skip_null_rows rows cache = elim (get cache cache_key) [
  | some set ↦ some cache
  | none ↦ elim rows [
    | none ↦ none
    | some tuples ↦ some (insert cache cache_key (insert_rows skip_null_rows tuples []))
  ]
]

unfoldable pub insert_values : List Tuple → KeySet → KeySet
unfolding join
insert_values [] set = set
insert_values (v ∷ values) set = insert_values values (insert_key (join v) set)

abbrev pub or_default : Option KeySet → KeySet
or_default none = []
or_default (some set) = set

unfoldable pub merge_uniqueness_keys : String → List Tuple → Cache → Cache
unfolding insert_values get insert
merge_uniqueness_keys cache_key values cache =
    insert cache cache_key (insert_values values (or_default (get cache cache_key)))

abbrev pub none_contained : KeySet → List Tuple → Bool
none_contained set values = not (any (λ v. contains set (join v)) values)

-- The Boolean says whether Ok was returned.
abbrev pub looked_up : String → List Tuple → Cache → Option Cache → Cache × Bool
looked_up cache_key values cache none = (cache, false)
looked_up cache_key values cache (some loaded) =
    (loaded, none_contained (or_default (get loaded cache_key)) values)

unfoldable pub check_uniqueness_against_table_cached :
    String → Bool → Option (List Tuple) → List Tuple → Cache → Cache × Bool
unfolding ensure_uniqueness_loaded
check_uniqueness_against_table_cached cache_key skip_null_rows rows values cache =
    looked_up cache_key values cache (ensure_uniqueness_loaded cache_key skip_null_rows rows cache)
