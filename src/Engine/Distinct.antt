-- ===== src/Engine/Distinct.antt =====
-- With the cache of keys, the keys of a table stay distinct.
use Prim.Native.String.{◌++◌ as append}
use text.Mathlib.Text.{starts_with}
use text.Mathlib.TextLemmas.{append_assoc}
use text.Mathlib.TextPositions.{starts_with-append}
use potatodb.Prelude.{
  ◌≡◌, refl, sym, ap, ◌∙◌, subst, String, Bool, true, false, not, none, List, [], ◌∷◌, ◌++◌, any,
  str_eq, str_eq_iff, Bool-cases, inl, inr, arith,
}
use potatodb.Prelude.HashMap.{get, get-insert}
use potatodb.Engine.Uniqueness.{
  Tuple, Cache, join, uniqueness_cache_key_pk, retain_keys, invalidate_uniqueness_cache_for_table,
  contains, insert_values, or_default, merge_uniqueness_keys,
}
use potatodb.Engine.Unique.{
  stored, Agrees, Loaded, contains-insert_values, stored-append, written_if,
}

-- No two rows share a key.
abbrev pub Distinct : List Tuple → Type 0
Distinct [] = Unit
Distinct (row ∷ rows) = (stored false rows (join row) ≡ false) × Distinct rows

none_shared :
    (row : Tuple) (rows values : List Tuple)
    → any (λ v. stored false (row ∷ rows) (join v)) values ≡ false
    → (stored false values (join row) ≡ false)
      × (any (λ v. stored false rows (join v)) values ≡ false)
unfolding join
none_shared row rows [] h = (refl, refl)
none_shared row rows (v ∷ values) h =
    let (here, there) = none_shared row rows values (ground (arith, h)) in
    (
      ground (arith, h, here, str_eq_iff (join v) (join row), str_eq_iff (join row) (join v)),
      ground (arith, h, there),
    )

Distinct-append :
    (rows values : List Tuple)
    → Distinct rows
    → Distinct values
    → any (λ v. stored false rows (join v)) values ≡ false
    → Distinct (rows ++ values)
unfolding join
Distinct-append [] values h k e = k
Distinct-append (row ∷ rows) values h k e =
    let (here, there) = none_shared row rows values e in
    (
      ground (arith, stored-append false rows values (join row), h.0, here),
      Distinct-append rows values h.1 k there,
    )

retained :
    (p : String → Bool) (cache : Cache) (k : String)
    → p k ≡ false
    → get (retain_keys p cache) k ≡ none
unfolding retain_keys get
retained p [] k h = refl
retained p ((j, set) ∷ cache) k h = elim (Bool-cases (str_eq j k)) [
  | inl q ↦
      let gone : p j ≡ false = ap p ((str_eq_iff j k).0 q) ∙ h in rw gone (retained p cache k h)
  | inr q ↦ elim (Bool-cases (p j)) [
    | inl z ↦ rw (z, q) (retained p cache k h)
    | inr z ↦ rw z (retained p cache k h)
  ]
]

-- The sets of a table are cleared.
pub get-invalidate :
    (table : String) (columns : List String) (cache : Cache)
    → get
        (invalidate_uniqueness_cache_for_table table cache)
        (uniqueness_cache_key_pk table columns)
      ≡ none
unfolding invalidate_uniqueness_cache_for_table uniqueness_cache_key_pk join
get-invalidate table columns cache =
    let prefix_pk = append "pk\u{1f}" (append table "\u{1f}") in
    let key : uniqueness_cache_key_pk table columns ≡ append prefix_pk (join columns) =
      ap (append "pk\u{1f}") (sym (append_assoc table "\u{1f}" (join columns)))
      ∙ sym (append_assoc "pk\u{1f}" (append table "\u{1f}") (join columns)) in
    let starts : starts_with (uniqueness_cache_key_pk table columns) prefix_pk ≡ true =
      ap (λ k. starts_with k prefix_pk) key ∙ starts_with-append prefix_pk (join columns) in
    retained _ cache (uniqueness_cache_key_pk table columns) (ground (arith, starts))

module _ (table : String) (columns : List String) where
  -- The rows are distinct, and the cache has their keys or none yet.
  abbrev pub Sound : List Tuple × Cache → Type 0
  Sound (rows, cache) =
      Distinct rows × Agrees (uniqueness_cache_key_pk table columns) false rows cache

  merged :
      (rows values : List Tuple) (cache : Cache)
      → Loaded (uniqueness_cache_key_pk table columns) false rows cache
      → Agrees
          (uniqueness_cache_key_pk table columns)
          false
          (rows ++ values)
          (merge_uniqueness_keys (uniqueness_cache_key_pk table columns) values cache)
  unfolding merge_uniqueness_keys join
  merged rows values cache (set, at, keys) other q key =
      let k = uniqueness_cache_key_pk table columns in
      let all = insert_values values set in
      let same : all ≡ other = ground (
        arith,
        at,
        get-insert cache k k (insert_values values (or_default (get cache k))),
        (str_eq_iff k k).1 refl,
        q,
      ) in
      ap (λ x. contains x key) (sym same)
      ∙ contains-insert_values values set key
      ∙ ground (arith, keys key, stored-append false rows values key)

  pub written-Sound :
      (rows values : List Tuple) (x : Cache × Bool)
      → Distinct rows
      → Distinct values
      → x.1 ≡ not (any (λ v. stored false rows (join v)) values)
      → Loaded (uniqueness_cache_key_pk table columns) false rows x.0
      → Sound (written_if table columns rows values x)
  unfolding join
  written-Sound rows values (cache, true) h k e l =
      (Distinct-append rows values h k (ground (arith, e)), merged rows values cache l)
  written-Sound rows values (cache, false) h k e (set, at, keys) = (
    h,
    λ other q key.
        let same : set ≡ other = ground (arith, at, q) in
        subst (λ x. contains x key ≡ stored false rows key) same (keys key),
  )
