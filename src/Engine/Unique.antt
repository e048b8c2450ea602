-- ===== src/Engine/Unique.antt =====
-- The cache of keys answers as the table would.
use potatodb.Prelude.{
  ◌≡◌, refl, sym, ap, ◌∙◌, String, Bool, true, false, not, ◌&&◌, ◌||◌, some, List, [], ◌∷◌, ◌++◌,
  any, str_eq, str_eq_iff, if◌then◌else◌, Bool-cases, Option-cases, inl, inr, arith,
}
use potatodb.Prelude.HashMap.{get, insert, get-insert}
use potatodb.Engine.Uniqueness.{
  Tuple, KeySet, Cache, join, uniqueness_cache_key_pk, has_null, contains, insert_key, insert_rows,
  ensure_uniqueness_loaded, insert_values, merge_uniqueness_keys,
  check_uniqueness_against_table_cached,
}

-- Whether a row of the table has the key.
abbrev pub stored : Bool → List Tuple → String → Bool
stored skip rows key = any (λ tuple. not (skip && has_null tuple) && str_eq (join tuple) key) rows

-- The cache has the keys of these rows, or none yet.
abbrev pub Agrees : String → Bool → List Tuple → Cache → Type 0
Agrees cache_key skip rows cache =
    (set : KeySet)
    → get cache cache_key ≡ some set
    → (key : String) → contains set key ≡ stored skip rows key

contains-insert_key :
    (k key : String) (set : KeySet)
    → contains (insert_key k set) key ≡ (str_eq k key || contains set key)
contains-insert_key k key set = elim (Bool-cases (contains set k)) [
  | inl q ↦ elim (Bool-cases (str_eq k key)) [
    | inl z ↦ rw (q, z) (ap (contains set) (sym ((str_eq_iff k key).0 z)) ∙ q)
    | inr z ↦ rw (q, z) refl
  ]
  | inr q ↦ rw q refl
]

contains-insert_rows :
    (skip : Bool) (rows : List Tuple) (set : KeySet) (key : String)
    → contains (insert_rows skip rows set) key ≡ (stored skip rows key || contains set key)
unfolding insert_rows
contains-insert_rows skip [] set key = refl
contains-insert_rows skip (tuple ∷ rows) set key =
    contains-insert_rows skip rows
      (if skip && has_null tuple then set else insert_key (join tuple) set) key
    ∙ ground (arith, contains-insert_key (join tuple) key set)

pub contains-insert_values :
    (values : List Tuple) (set : KeySet) (key : String)
    → contains (insert_values values set) key
      ≡ (any (λ v. str_eq (join v) key) values || contains set key)
unfolding insert_values join
contains-insert_values [] set key = refl
contains-insert_values (v ∷ values) set key =
    contains-insert_values values (insert_key (join v) set) key
    ∙ ground (arith, contains-insert_key (join v) key set)

-- After loading, the cache has a set, with the keys of the rows.
abbrev pub Loaded : String → Bool → List Tuple → Cache → Type 0
Loaded cache_key skip rows cache =
    (set : KeySet) × (get cache cache_key ≡ some set)
    × ((key : String) → contains set key ≡ stored skip rows key)

ensure_uniqueness_loaded-Loaded :
    (cache_key : String) (skip : Bool) (rows : List Tuple) (cache : Cache)
    → Agrees cache_key skip rows cache
    → (loaded : Cache) × (ensure_uniqueness_loaded cache_key skip (some rows) cache ≡ some loaded)
      × Loaded cache_key skip rows loaded
unfolding ensure_uniqueness_loaded
ensure_uniqueness_loaded-Loaded cache_key skip rows cache h =
    elim (Option-cases (get cache cache_key)) [
      | inl q ↦
          let set = insert_rows skip rows [] in
          (
            insert cache cache_key set,
            rw (q, ensure_uniqueness_loaded) refl,
            (
              set,
              rw (get-insert cache cache_key cache_key set, (str_eq_iff cache_key cache_key).1 refl)
                  refl,
              λ key. ground (arith, contains-insert_rows skip rows [] key),
            ),
          )
      | inr (set, q) ↦ (cache, rw (q, ensure_uniqueness_loaded) refl, (set, q, h set q))
    ]

any-same :
    (p q : Tuple → Bool) (values : List Tuple)
    → ((v : Tuple) → p v ≡ q v)
    → any p values ≡ any q values
any-same p q [] h = refl
any-same p q (v ∷ values) h = ground (arith, h v, any-same p q values h)

-- If the cache has no keys for a constraint, or those of the rows that the table returns, the check
-- of values returns Ok exactly if no value has the key of a stored row, and the cache then has the
-- keys of the rows.
pub check_uniqueness_against_table_cached_lem :
    (cache_key : String) (skip : Bool) (rows values : List Tuple) (cache : Cache)
    → Agrees cache_key skip rows cache
    → ((check_uniqueness_against_table_cached cache_key skip (some rows) values cache).1
        ≡ not (any (λ v. stored skip rows (join v)) values))
      × Loaded cache_key skip rows
          (check_uniqueness_against_table_cached cache_key skip (some rows) values cache).0
unfolding check_uniqueness_against_table_cached join
check_uniqueness_against_table_cached_lem cache_key skip rows values cache h =
    let (loaded, e, (set, at, keys)) =
      ensure_uniqueness_loaded-Loaded cache_key skip rows cache h in
    rw e (
      rw at (
          ap not (
            any-same (λ v. contains set (join v)) (λ v. stored skip rows (join v)) values
              λ v. keys (join v))),
      (set, at, keys),
    )

pub stored-append :
    (skip : Bool) (rows values : List Tuple) (key : String)
    → stored skip (rows ++ values) key ≡ (stored skip rows key || stored skip values key)
stored-append skip [] values key = refl
stored-append skip (row ∷ rows) values key = ground (arith, stored-append skip rows values key)

-- The rows of a table and the sets of its PRIMARY KEY after an insert that was checked.
module _ (table : String) (columns : List String) where
  abbrev pub written_if : List Tuple → List Tuple → Cache × Bool → List Tuple × Cache
  written_if rows values (cache, true) =
      (rows ++ values, merge_uniqueness_keys (uniqueness_cache_key_pk table columns) values cache)
  written_if rows values (cache, false) = (rows, cache)
