-- ===== src/Catalog/Transactions.antt =====
-- How the catalog's flags follow its operations, and rolling a transaction back.
use potatodb.Prelude.{String, ◌≡◌, refl, ◌∙◌, ◌⊎◌, inl, inr, true, false, Option, none, some, arith}
use potatodb.Prelude.{List, [], ◌∷◌, Option-cases}
use potatodb.Prelude.HashMap.{get}
use potatodb.Catalog.Types.{TableMeta, SequenceDef}
use potatodb.Catalog.State.{Catalog, save, snapshot, restore, set_in_transaction}
use potatodb.Catalog.Ops.{
  add_table, remove_table, add_index, remove_index, add_view, remove_view, set_statistics,
  set_file_stats, add_sequence, remove_sequence, add_udf, remove_udf,
}
use potatodb.Catalog.Sequences.{
  settle, advance, NextValue, next_sequence_value_missing, next_sequence_value_found,
}
use potatodb.Catalog.Session.{Op, statistics, files, nextval, apply, run}

-- An operation leaves the flag `in_transaction` alone; inside a transaction it does not touch
-- `dirty`, and outside it either marks the catalog dirty or changes nothing at all.
record Flags (c d : Catalog) : Type 0 where
  same_mode : d.in_transaction ≡ c.in_transaction
  inside : c.in_transaction ≡ true → d.dirty ≡ c.dirty
  outside : c.in_transaction ≡ false → (d.dirty ≡ true) ⊎ (d ≡ c)

Flags-refl : (c : Catalog) → Flags c c
Flags-refl c = record { same_mode = refl; inside = λ h. refl; outside = λ h. inr refl }

-- `save` of a catalog whose flags are those of `c`.
Flags-save :
    (c d : Catalog) → d.in_transaction ≡ c.in_transaction → d.dirty ≡ c.dirty → Flags c (save d)
unfolding save
Flags-save c d mode same = record {
  same_mode = ground arith;
  inside = λ h. ground arith;
  outside = λ h. inl (ground arith);
}

Flags-settle :
    (name : String) (r : NextValue × SequenceDef) (c : Catalog) → Flags c (settle name r c).1
unfolding settle
Flags-settle name (NextValue.value v, seq) c = Flags-save c _ refl refl
Flags-settle name (NextValue.no_such_sequence, seq) c = Flags-refl c
Flags-settle name (NextValue.at_minimum, seq) c = Flags-refl c
Flags-settle name (NextValue.at_maximum, seq) c = Flags-refl c

Flags-update :
    (c : Catalog) (f : TableMeta → Catalog) (o : Option TableMeta)
    → ((x : TableMeta) → Flags c (f x))
    → Flags c (elim o [ none ↦ c | some x ↦ f x ])
Flags-update c f none h = Flags-refl c
Flags-update c f (some x) h = h x

apply-Flags : (o : Op) (c : Catalog) → Flags c (apply o c)
unfolding apply add_table remove_table add_index remove_index add_view remove_view set_statistics
    set_file_stats add_sequence remove_sequence add_udf remove_udf
apply-Flags (statistics name stats) c =
    Flags-update c _ (get c.tables name) (λ x. Flags-save c _ refl refl)
apply-Flags (files name stats) c =
    Flags-update c _ (get c.tables name) (λ x. Flags-save c _ refl refl)
apply-Flags (nextval name) c = elim (Option-cases (get c.sequences name)) [
  | inl missing ↦ rw (next_sequence_value_missing name c missing, apply) (Flags-refl c)
  | inr (seq, found) ↦
      rw (next_sequence_value_found name c seq found, apply) (Flags-settle name (advance seq) c)
]
apply-Flags _ c = Flags-save c _ refl refl

-- Outside a transaction no change is lost: an operation either leaves the whole catalog as it was,
-- or leaves it marked for the next flush.
apply_marks_dirty :
    (o : Op) (c : Catalog) → c.in_transaction ≡ false → ((apply o c).dirty ≡ true) ⊎ (apply o c ≡ c)
apply_marks_dirty o c h = (apply-Flags o c).outside h

run_flags :
    (os : List Op) (c : Catalog)
    → c.in_transaction ≡ true
    → ((run os c).in_transaction ≡ true) × ((run os c).dirty ≡ c.dirty)
unfolding run
run_flags [] c h = (h, refl)
run_flags (o ∷ os) c h =
    let f = apply-Flags o c in
    let (mode, same) = run_flags os (apply o c) (f.same_mode ∙ h) in (mode, same ∙ f.inside h)

-- BEGIN, any catalog operations, ROLLBACK: restoring the snapshot and leaving the transaction gives
-- back the whole catalog, its `dirty` flag included.
pub rollback_restores :
    (os : List Op) (c : Catalog)
    → c.in_transaction ≡ false
    → set_in_transaction false (restore (snapshot c) (run os (set_in_transaction true c))) ≡ c
unfolding set_in_transaction restore snapshot
rollback_restores os c h =
    let (_, same) = run_flags os (record c { in_transaction = true }) refl in ground (arith, same)
