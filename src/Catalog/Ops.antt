-- ===== src/Catalog/Ops.antt =====
-- The catalog's operations. A write to `self.tables` and its like is followed by `save`.
use potatodb.Prelude.{String, Option, none, some, List, ◌∷◌, [], str_eq, not, if◌then◌else◌}
use potatodb.Prelude.HashMap.{HashMap, get, insert, remove, retain}
use potatodb.Catalog.Types.{
  TableMeta, TableStatistics, FileStats, IndexDef, ViewDef, SequenceDef, UdfDef,
}
use potatodb.Catalog.State.{Catalog, save}

unfoldable pub add_table : TableMeta → Catalog → Catalog
add_table meta c = save (record c { tables = insert c.tables meta.name meta })

-- Dropping a table drops its indexes.
unfoldable pub remove_table : String → Catalog → Option TableMeta × Catalog
remove_table name c = (
  get c.tables name,
  save (record c {
    tables = remove c.tables name;
    indexes = retain (λ idx. not (str_eq idx.table_name name)) c.indexes;
  }),
)

unfoldable pub add_index : IndexDef → Catalog → Catalog
add_index def c = save (record c { indexes = insert c.indexes def.name def })

unfoldable pub remove_index : String → Catalog → Option IndexDef × Catalog
remove_index name c = (get c.indexes name, save (record c { indexes = remove c.indexes name }))

-- `self.indexes.values().filter(..)`
unfoldable pub indexes_for_table : String → HashMap IndexDef → List IndexDef
indexes_for_table table_name [] = []
indexes_for_table table_name ((k, idx) ∷ m) =
    let rest = indexes_for_table table_name m in
    if str_eq idx.table_name table_name then idx ∷ rest else rest

unfoldable pub add_view : ViewDef → Catalog → Catalog
add_view def c = save (record c { views = insert c.views def.name def })

unfoldable pub remove_view : String → Catalog → Option ViewDef × Catalog
remove_view name c = (get c.views name, save (record c { views = remove c.views name }))

-- `if let Some(meta) = self.tables.get_mut(table_name)`: the entry is replaced, and saved.
unfoldable pub set_statistics : String → TableStatistics → Catalog → Catalog
set_statistics table_name stats c = elim (get c.tables table_name) [
  | none ↦ c
  | some meta ↦
      save
        (record c { tables = insert c.tables table_name (record meta { statistics = some stats }) })
]

unfoldable pub set_file_stats : String → List FileStats → Catalog → Catalog
set_file_stats table_name file_stats c = elim (get c.tables table_name) [
  | none ↦ c
  | some meta ↦
      save
        (record c { tables = insert c.tables table_name (record meta { file_stats = file_stats }) })
]

unfoldable pub add_sequence : SequenceDef → Catalog → Catalog
add_sequence def c = save (record c { sequences = insert c.sequences def.name def })

unfoldable pub remove_sequence : String → Catalog → Option SequenceDef × Catalog
remove_sequence name c =
    (get c.sequences name, save (record c { sequences = remove c.sequences name }))

unfoldable pub add_udf : UdfDef → Catalog → Catalog
add_udf def c = save (record c { udfs = insert c.udfs def.name def })

unfoldable pub remove_udf : String → Catalog → Option UdfDef × Catalog
remove_udf name c = (get c.udfs name, save (record c { udfs = remove c.udfs name }))
