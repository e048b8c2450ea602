-- ===== src/Engine/Unmerged.antt =====
-- What a check of constraints that returns Ok says of the rows, and of the keys that are merged.
use potatodb.Prelude.{
  ℕ, ◌≡◌, refl, ap, subst, String, Bool, true, false, ◌||◌, none, some, List, [], ◌∷◌, str_eq,
  str_eq_iff, Bool-cases, Option-cases, inl, inr, arith,
}
use potatodb.Catalog.Types.{TableConstraint}
use potatodb.Engine.Uniqueness.{Tuple, KeySet, Cache, join, has_null, contains}
use potatodb.Engine.Unique.{stored}
use potatodb.Engine.Distinct.{Distinct}
use potatodb.Engine.Validate.{
  Batch, Queries, Merges, Verdict, valid, invalid, panicked, positions, Collected, collected,
  violated, no_column, with_tuple, tuple_of, collect,
}

-- Where Ok is returned, no keys are.
abbrev Unmerged : Verdict → Type 0
Unmerged (valid merges cache) = merges ≡ []
Unmerged (invalid cache) = Unit
Unmerged panicked = Unit

-- A PRIMARY KEY or UNIQUE constraint one of whose columns is not among the target columns.
abbrev pub misses : List String → TableConstraint → Bool
misses target_columns (TableConstraint.primary_key columns) =
    elim (positions target_columns columns) [ none ↦ true | some is ↦ false ]
misses target_columns (TableConstraint.unique name columns) =
    elim (positions target_columns columns) [ none ↦ true | some is ↦ false ]
misses target_columns (TableConstraint.check name expr) = false
misses target_columns (TableConstraint.foreign_key name columns ref_table ref_columns d u) = false

abbrev pub one_misses : List String → List TableConstraint → Bool
one_misses target_columns [] = false
one_misses target_columns (c ∷ cs) = misses target_columns c || one_misses target_columns cs

module _ (q : Queries) (table : String) (target_columns : List String) (batches : List Batch) where
  abbrev EndsUnmerged : (Merges → Cache → Verdict) → Type 0
  EndsUnmerged next = (merges : Merges) (cache : Cache) → Unmerged (next merges cache)

-- Collected tuples share no key with each other, and none with `seen`.
abbrev FreshIn : KeySet → Collected → Type 0
FreshIn seen (collected values) =
    Distinct values × ((key : String) → contains seen key ≡ true → stored false values key ≡ false)
FreshIn seen violated = Unit
FreshIn seen no_column = Unit

with_tuple-FreshIn :
    (tuple : Tuple) (seen : KeySet) (o : Collected)
    → contains seen (join tuple) ≡ false
    → FreshIn (join tuple ∷ seen) o
    → FreshIn seen (with_tuple tuple o)
with_tuple-FreshIn tuple seen (collected values) q (h, fresh) =
    let k = join tuple in
    (
      (fresh k (ground (arith, (str_eq_iff k k).1 refl)), h),
      λ key z. elim (Bool-cases (str_eq k key)) [
        | inl y ↦ cc (q, z, ap (contains seen) ((str_eq_iff k key).0 y))
        | inr y ↦ rw y (fresh key (ground (arith, z)))
      ],
    )
with_tuple-FreshIn tuple seen violated q h = tt
with_tuple-FreshIn tuple seen no_column q h = tt

collect-FreshIn :
    (skip : Bool) (is : List ℕ) (rows : List (List String)) (seen : KeySet)
    → FreshIn seen (collect skip is rows seen)
unfolding collect join
collect-FreshIn skip is [] seen = (tt, λ key z. refl)
collect-FreshIn skip is (row ∷ rows) seen = elim (Option-cases (tuple_of row is)) [
  | inl q ↦ rw (q, collect) tt
  | inr (tuple, q) ↦
      rw (q, collect)
        (elim (Bool-cases (has_null tuple)) [
          | inl z ↦ elim (Bool-cases skip) [
            | inl y ↦ rw (z, y) (collect-FreshIn skip is rows seen)
            | inr y ↦ rw (z, y) tt
          ]
          | inr z ↦ elim (Bool-cases (contains seen (join tuple))) [
            | inl y ↦ rw (z, y) tt
            | inr y ↦
                rw (z, y)
                  (with_tuple-FreshIn tuple seen (collect skip is rows (join tuple ∷ seen)) y
                    (collect-FreshIn skip is rows (join tuple ∷ seen)))
          ]
        ])
]

-- The tuples that are collected from the rows of an insert for a PRIMARY KEY or UNIQUE constraint
-- have distinct keys.
pub collect-Distinct :
    (skip : Bool) (is : List ℕ) (rows : List (List String)) (values : List Tuple)
    → collect skip is rows [] ≡ collected values
    → Distinct values
collect-Distinct skip is rows values e = (subst (FreshIn []) e (collect-FreshIn skip is rows [])).0
