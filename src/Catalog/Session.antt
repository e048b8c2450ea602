-- ===== src/Catalog/Session.antt =====
-- Any sequence of catalog operations, and what each of them keeps.
use potatodb.Prelude.{String, ◌≡◌, refl, ◌∙◌, inl, inr, Bool, true, false, Option, none, some}
use potatodb.Prelude.{List, [], ◌∷◌, if◌then◌else◌, Option-cases}
use potatodb.Prelude.HashMap.{HashMap, get, insert}
use potatodb.Catalog.Types.{
  TableMeta, TableStatistics, FileStats, IndexDef, ViewDef, SequenceDef, UdfDef,
}
use potatodb.Catalog.State.{Catalog, save}
use potatodb.Catalog.Ops.{
  add_table, remove_table, add_index, remove_index, add_view, remove_view, set_statistics,
  set_file_stats, add_sequence, remove_sequence, add_udf, remove_udf,
}
use potatodb.Catalog.Sequences.{
  next_sequence_value, settle, advance, NextValue, advance_name, next_sequence_value_missing,
  next_sequence_value_found,
}
use potatodb.Catalog.WellFormed.{IsKeyed, insert-IsKeyed, remove-IsKeyed, retain-IsKeyed}

pub data Op : Type 0 where
  table : TableMeta → Op
  drop_table : String → Op
  index : IndexDef → Op
  drop_index : String → Op
  view : ViewDef → Op
  drop_view : String → Op
  statistics : String → TableStatistics → Op
  files : String → List FileStats → Op
  sequence : SequenceDef → Op
  drop_sequence : String → Op
  udf : UdfDef → Op
  drop_udf : String → Op
  nextval : String → Op

unfoldable pub apply : Op → Catalog → Catalog
apply (table meta) c = add_table meta c
apply (drop_table name) c = (remove_table name c).1
apply (index def) c = add_index def c
apply (drop_index name) c = (remove_index name c).1
apply (view def) c = add_view def c
apply (drop_view name) c = (remove_view name c).1
apply (statistics name stats) c = set_statistics name stats c
apply (files name stats) c = set_file_stats name stats c
apply (sequence def) c = add_sequence def c
apply (drop_sequence name) c = (remove_sequence name c).1
apply (udf def) c = add_udf def c
apply (drop_udf name) c = (remove_udf name c).1
apply (nextval name) c = (next_sequence_value name c).1

unfoldable pub run : List Op → Catalog → Catalog
run [] c = c
run (o ∷ os) c = run os (apply o c)

pub record IsWellFormed (c : Catalog) : Type 0 where
  pub tables : IsKeyed (λ (x : TableMeta). x.name) c.tables
  pub indexes : IsKeyed (λ (x : IndexDef). x.name) c.indexes
  pub views : IsKeyed (λ (x : ViewDef). x.name) c.views
  pub sequences : IsKeyed (λ (x : SequenceDef). x.name) c.sequences
  pub udfs : IsKeyed (λ (x : UdfDef). x.name) c.udfs

save-IsWellFormed : (c : Catalog) → IsWellFormed c → IsWellFormed (save c)
unfolding save
save-IsWellFormed c h = either c.in_transaction
  where
    either : (b : Bool) → IsWellFormed (if b then c else record c { dirty = true })
    either true = h
    either false = record {
      tables = h.tables;
      indexes = h.indexes;
      views = h.views;
      sequences = h.sequences;
      udfs = h.udfs;
    }

module _ (c : Catalog) (h : IsWellFormed c) where
  with_tables :
      (m : HashMap TableMeta)
      → IsKeyed (λ (x : TableMeta). x.name) m
      → IsWellFormed (save (record c { tables = m }))
  with_tables m k =
      save-IsWellFormed (record c { tables = m })
        (record {
          tables = k;
          indexes = h.indexes;
          views = h.views;
          sequences = h.sequences;
          udfs = h.udfs;
        })

  with_indexes :
      (m : HashMap IndexDef)
      → IsKeyed (λ (x : IndexDef). x.name) m
      → IsWellFormed (save (record c { indexes = m }))
  with_indexes m k =
      save-IsWellFormed (record c { indexes = m })
        (record {
          tables = h.tables;
          indexes = k;
          views = h.views;
          sequences = h.sequences;
          udfs = h.udfs;
        })

  with_views :
      (m : HashMap ViewDef)
      → IsKeyed (λ (x : ViewDef). x.name) m
      → IsWellFormed (save (record c { views = m }))
  with_views m k =
      save-IsWellFormed (record c { views = m })
        (record {
          tables = h.tables;
          indexes = h.indexes;
          views = k;
          sequences = h.sequences;
          udfs = h.udfs;
        })

  with_sequences :
      (m : HashMap SequenceDef)
      → IsKeyed (λ (x : SequenceDef). x.name) m
      → IsWellFormed (save (record c { sequences = m }))
  with_sequences m k =
      save-IsWellFormed (record c { sequences = m })
        (record {
          tables = h.tables;
          indexes = h.indexes;
          views = h.views;
          sequences = k;
          udfs = h.udfs;
        })

  with_udfs :
      (m : HashMap UdfDef)
      → IsKeyed (λ (x : UdfDef). x.name) m
      → IsWellFormed (save (record c { udfs = m }))
  with_udfs m k =
      save-IsWellFormed (record c { udfs = m })
        (record {
          tables = h.tables;
          indexes = h.indexes;
          views = h.views;
          sequences = h.sequences;
          udfs = k;
        })

  with_table :
      (name : String) (f : TableMeta → TableMeta) (o : Option TableMeta)
      → ((x : TableMeta) → (f x).name ≡ x.name)
      → get c.tables name ≡ o
      → IsWellFormed (elim o [
        | none ↦ c
        | some meta ↦ save (record c { tables = insert c.tables name (f meta) })
      ])
  with_table name f none same e = h
  with_table name f (some meta) same e =
      with_tables (insert c.tables name (f meta))
        (insert-IsKeyed _ c.tables h.tables name (f meta) (same meta ∙ h.tables.named name meta e))

settle-IsWellFormed :
    (c : Catalog) (name : String) (seq : SequenceDef)
    → IsWellFormed c
    → get c.sequences name ≡ some seq
    → IsWellFormed (settle name (advance seq) c).1
settle-IsWellFormed c name seq h found = pick (advance seq) (advance_name seq)
  where
    pick : (r : NextValue × SequenceDef) → r.1.name ≡ seq.name → IsWellFormed (settle name r c).1
    pick (NextValue.value v, next) e =
        unfold settle in
        with_sequences c h (insert c.sequences name next) (
          insert-IsKeyed _ c.sequences h.sequences name next (e ∙ h.sequences.named name seq found))
    pick (NextValue.no_such_sequence, next) e = unfold settle in h
    pick (NextValue.at_minimum, next) e = unfold settle in h
    pick (NextValue.at_maximum, next) e = unfold settle in h

-- Every operation keeps every entry unique and under its own name.
pub apply-IsWellFormed : (o : Op) (c : Catalog) → IsWellFormed c → IsWellFormed (apply o c)
unfolding apply add_table remove_table add_index remove_index add_view remove_view set_statistics
    set_file_stats add_sequence remove_sequence add_udf remove_udf
apply-IsWellFormed (table meta) c h =
    with_tables c h _ (insert-IsKeyed _ c.tables h.tables meta.name meta refl)
apply-IsWellFormed (drop_table name) c h = save-IsWellFormed _ (record {
  tables = remove-IsKeyed _ c.tables h.tables name;
  indexes = retain-IsKeyed _ c.indexes h.indexes _;
  views = h.views;
  sequences = h.sequences;
  udfs = h.udfs;
})
apply-IsWellFormed (index def) c h =
    with_indexes c h _ (insert-IsKeyed _ c.indexes h.indexes def.name def refl)
apply-IsWellFormed (drop_index name) c h =
    with_indexes c h _ (remove-IsKeyed _ c.indexes h.indexes name)
apply-IsWellFormed (view def) c h =
    with_views c h _ (insert-IsKeyed _ c.views h.views def.name def refl)
apply-IsWellFormed (drop_view name) c h = with_views c h _ (remove-IsKeyed _ c.views h.views name)
apply-IsWellFormed (statistics name stats) c h =
    with_table c h name (λ meta. record meta { statistics = some stats }) (get c.tables name)
      (λ x. refl) refl
apply-IsWellFormed (files name stats) c h =
    with_table c h name (λ meta. record meta { file_stats = stats }) (get c.tables name) (λ x. refl)
      refl
apply-IsWellFormed (sequence def) c h =
    with_sequences c h _ (insert-IsKeyed _ c.sequences h.sequences def.name def refl)
apply-IsWellFormed (drop_sequence name) c h =
    with_sequences c h _ (remove-IsKeyed _ c.sequences h.sequences name)
apply-IsWellFormed (udf def) c h =
    with_udfs c h _ (insert-IsKeyed _ c.udfs h.udfs def.name def refl)
apply-IsWellFormed (drop_udf name) c h = with_udfs c h _ (remove-IsKeyed _ c.udfs h.udfs name)
apply-IsWellFormed (nextval name) c h = elim (Option-cases (get c.sequences name)) [
  | inl missing ↦ rw (next_sequence_value_missing name c missing, apply) h
  | inr (seq, found) ↦
      rw (next_sequence_value_found name c seq found, apply)
        (settle-IsWellFormed c name seq h found)
]

-- Whatever operations run on a well-formed catalog, it is well formed afterwards.
pub run-IsWellFormed : (os : List Op) (c : Catalog) → IsWellFormed c → IsWellFormed (run os c)
unfolding run
run-IsWellFormed [] c h = h
run-IsWellFormed (o ∷ os) c h = run-IsWellFormed os (apply o c) (apply-IsWellFormed o c h)
