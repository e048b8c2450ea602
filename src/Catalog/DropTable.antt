-- ===== src/Catalog/DropTable.antt =====
-- What dropping a table does to tables and indexes.
use potatodb.Prelude.{String, ◌≡◌, refl, none, arith}
use potatodb.Prelude.{[], ◌∷◌, str_eq, not, if◌then◌else◌}
use potatodb.Prelude.HashMap.{HashMap, get, retain, kept, get-remove, get-retain}
use potatodb.Catalog.Types.{IndexDef}
use potatodb.Catalog.State.{Catalog, save}
use potatodb.Catalog.Ops.{remove_table, indexes_for_table}
use potatodb.Catalog.Session.{IsWellFormed}

pub save_tables : (c : Catalog) → (save c).tables ≡ c.tables
unfolding save
save_tables c = ground arith

pub save_indexes : (c : Catalog) → (save c).indexes ≡ c.indexes
unfolding save
save_indexes c = ground arith

indexes_for_table-retain :
    (name : String) (m : HashMap IndexDef)
    → indexes_for_table name (retain (λ idx. not (str_eq idx.table_name name)) m) ≡ []
unfolding indexes_for_table retain
indexes_for_table-retain name [] = refl
indexes_for_table-retain name ((k, idx) ∷ m) = ground (arith, indexes_for_table-retain name m)

-- Dropping a table of a well-formed catalog returns its metadata, removes that table and no other,
-- and removes its indexes and no others.
remove_table_lem :
    (name other : String) (c : Catalog)
    → IsWellFormed c
    → ((remove_table name c).0 ≡ get c.tables name)
      × (get (remove_table name c).1.tables other
          ≡ (if str_eq name other then none else get c.tables other))
      × (indexes_for_table name (remove_table name c).1.indexes ≡ [])
      × (get (remove_table name c).1.indexes other
          ≡ kept (λ idx. not (str_eq idx.table_name name)) (get c.indexes other))
unfolding remove_table
remove_table_lem name other c h = (
  refl,
  rw save_tables (get-remove c.tables name other),
  rw save_indexes (indexes_for_table-retain name c.indexes),
  rw save_indexes (get-retain _ c.indexes other h.indexes.unique),
)
