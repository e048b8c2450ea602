-- ===== src/Tests/Keys.antt =====
-- The cache of keys at a small table.
use potatodb.Prelude.{
  ◌≡◌, refl, true, false, not, some, String, List, [], ◌∷◌, ◌++◌, any, if◌then◌else◌, str_eq,
}
use potatodb.Prelude.HashMap.{get}
use potatodb.Engine.Uniqueness.{Cache, join, check_uniqueness_against_table_cached}
use potatodb.Engine.Unique.{stored, Loaded, check_uniqueness_against_table_cached_lem}
use potatodb.Engine.Validate.{Batch, Queries, Counted, Merges, Verdict, validate_constraints_batch}
use potatodb.Catalog.Types.{TableMeta, TableConstraint}
use potatodb.Buffer.State.{before_insert}
use potatodb.Tests.Metadata.{users_table}
use potatodb.Engine.Distinct.{Distinct}
use potatodb.Engine.Keyed.{Change, insert_batches, rewrite_rows, changes}

check_uniqueness_against_table_cached_lem_example :
    ((check_uniqueness_against_table_cached "k" false
        (some (("1" ∷ []) ∷ []))
        (("2" ∷ []) ∷ [])
        []).1
      ≡ not (any (λ v. stored false (("1" ∷ []) ∷ []) (join v)) (("2" ∷ []) ∷ [])))
    × Loaded "k" false
        (("1" ∷ []) ∷ [])
        (check_uniqueness_against_table_cached "k" false
          (some (("1" ∷ []) ∷ []))
          (("2" ∷ []) ∷ [])
          []).0
unfolding get
check_uniqueness_against_table_cached_lem_example =
    check_uniqueness_against_table_cached_lem "k" false (("1" ∷ []) ∷ []) (("2" ∷ []) ∷ []) []
      λ set q. cc

-- A table with a PRIMARY KEY and a UNIQUE column, which an insert leaves out.
abbrev people : TableMeta
people = record users_table {
  constraints =
      TableConstraint.primary_key ("id" ∷ []) ∷ TableConstraint.unique "mail" ("mail" ∷ []) ∷ [];
}

abbrev no_rows_yet : Queries
no_rows_yet = record {
  select = λ columns. some [];
  violating = λ expr columns batches. Counted.counted 0;
  orphans = λ columns ref_table ref_columns. some 0;
  validate_table_constraints = true;
  validate_check_constraints = true;
}

abbrev ids : List Batch
ids = record { width = 1; rows = ("1" ∷ []) ∷ [] } ∷ []

abbrev cache_of : Verdict → Cache
cache_of (Verdict.valid merges cache) = cache
cache_of (Verdict.invalid cache) = cache
cache_of Verdict.panicked = []

abbrev merges_of : Verdict → Merges
merges_of (Verdict.valid merges cache) = merges
merges_of (Verdict.invalid cache) = []
merges_of Verdict.panicked = []

abbrev verdict : Verdict
unfolding validate_constraints_batch
verdict =
    validate_constraints_batch before_insert no_rows_yet "people" ("id" ∷ []) ids (some people) []

abbrev keyed_people : TableMeta
keyed_people = record users_table { constraints = TableConstraint.primary_key ("id" ∷ []) ∷ [] }

abbrev batch_of : String → List Batch
batch_of id = record { width = 1; rows = (id ∷ []) ∷ [] } ∷ []

-- The write of a text of a number into an integer column.
abbrev stored_as : List String → List String
stored_as [] = []
stored_as (v ∷ vs) = (if str_eq v "'1'" then "1" else v) ∷ vs

abbrev some_changes : List Change
some_changes =
    insert_batches ("id" ∷ []) (batch_of "1" ++ batch_of "2")
    ∷ insert_batches ("id" ∷ []) (batch_of "2" ++ batch_of "3")
    ∷ rewrite_rows (("2" ∷ []) ∷ [])
    ∷ insert_batches ("id" ∷ []) (batch_of "1")
    ∷ []

-- The second insert is refused, and the last one is not.
rows_of_changes :
    (changes no_rows_yet "people" ("id" ∷ []) keyed_people stored_as some_changes ([], [])).0
    ≡ ("2" ∷ []) ∷ ("1" ∷ []) ∷ []
unfolding changes
rows_of_changes = refl

-- A text of the same number passes the check.
rows_of_texts :
    (changes no_rows_yet "people"
      ("id" ∷ [])
      keyed_people
      stored_as
      (insert_batches ("id" ∷ []) (batch_of "1") ∷ insert_batches ("id" ∷ []) (batch_of "'1'") ∷ [])
      ([], [])).0
    ≡ ("1" ∷ []) ∷ ("1" ∷ []) ∷ []
unfolding changes
rows_of_texts = refl
