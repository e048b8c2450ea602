-- ===== src/Buffer/Flush.antt =====
-- `flush_table`, `flush_all`, `flush_buffered_for_sql`, `maybe_auto_analyze` and
-- `drain_pending_analyze`.
use potatodb.Prelude.{
  ℕ, String, Bool, true, false, ◌||◌, Option, none, some, List, [], ◌∷◌, ◌++◌, map, filter,
  is_empty, if◌then◌else◌, leb, ◌==◌,
}
use potatodb.Prelude.HashMap.{get, insert, remove}
use potatodb.Catalog.State.{Catalog}
use potatodb.Arrow.Log.{Faults, Outcome, checkpoint_table}
use potatodb.Buffer.State.{
  Env, BufferedInsert, Db, Reply, done, failed, ◌>>=◌, ConstraintValidationPhase, before_insert,
  after_insert, saturating, target_columns,
}

abbrev pub or_zero : Option ℕ → ℕ
or_zero none = 0
or_zero (some n) = n

module _ (e : Env) where
  abbrev pub checked : Db e → e.World × Option e.Merges → Reply e e.Merges
  checked d (world, none) = failed (record d { world = world })
  checked d (world, some merges) = done merges (record d { world = world })

  -- `validate_constraints_batch`, with the keys that it returns.
  abbrev pub check_constraints :
      ConstraintValidationPhase → String → List String → List e.ipc.Batch → Db e → Reply e e.Merges
  check_constraints phase table columns batches d =
      checked d (e.validate phase table columns batches d.catalog d.world)

  abbrev pub on_world : Db e → e.World × Bool → Reply e (Unit {0})
  on_world d (world, true) = done tt (record d { world = world })
  on_world d (world, false) = failed (record d { world = world })

  abbrev pub on_catalog : Db e → Catalog × e.World × Bool → Reply e (Unit {0})
  on_catalog d (catalog, world, true) = done tt (record d { catalog = catalog; world = world })
  on_catalog d (catalog, world, false) = failed (record d { catalog = catalog; world = world })

  abbrev pub on_arrow : Db e → Outcome → Reply e (Unit {0})
  on_arrow d (Outcome.ok w) = done tt (record d { arrow_wal = some w })
  on_arrow d (Outcome.err w) = failed (record d { arrow_wal = some w })

  unfoldable pub maybe_auto_analyze : String → ℕ → Db e → Db e
  unfolding get insert
  maybe_auto_analyze table rows_written d =
      if rows_written == 0 || d.auto_analyze_threshold_rows == 0
      then d
      else let rows = saturating (or_zero (get d.rows_since_analyze table)) rows_written in
        if leb d.auto_analyze_threshold_rows rows
        then record d {
          rows_since_analyze = insert d.rows_since_analyze table 0;
          pending_analyze_tables = d.pending_analyze_tables ++ table ∷ [];
        }
        else record d { rows_since_analyze = insert d.rows_since_analyze table rows }

  unfoldable pub analyze_tables : List String → Db e → Db e
  analyze_tables [] d = d
  analyze_tables (table ∷ tables) d =
      let (catalog, world) = e.analyze table d.catalog d.world in
      analyze_tables tables (record d { catalog = catalog; world = world })

  unfoldable pub drain_pending_analyze : Db e → Db e
  unfolding analyze_tables
  drain_pending_analyze d =
      analyze_tables d.pending_analyze_tables (record d { pending_analyze_tables = [] })

  -- `next_temp_table_name`; the name is made of the number.
  abbrev pub next_temp_table : Db e → Db e
  next_temp_table d = record d { temp_table_counter = saturating d.temp_table_counter 1 }

  abbrev pub drop_log : Faults → String → Db e → Reply e (Unit {0})
  drop_log f table d = elim d.arrow_wal [
    | none ↦ done tt d
    | some w ↦ on_arrow d (checkpoint_table f table w)
  ]

  -- `flush_table` once the rows were taken from the buffer.
  unfoldable pub write_rows : Faults → String → BufferedInsert e → Db e → Reply e ℕ
  unfolding maybe_auto_analyze get
  write_rows f table buffered d =
      let columns = target_columns buffered.columns (get d.catalog.tables table) in
      check_constraints before_insert table columns buffered.batches d >>= λ merges d1.
      on_world (next_temp_table d1)
        (e.write d1.temp_table_counter table buffered.columns buffered.batches d1.catalog d1.world)
      >>= λ _ d2. check_constraints after_insert table columns [] d2 >>= λ _ d3.
          drop_log f table (record d3 { world = e.merge merges d3.world }) >>= λ _ d4.
          (let d5 = maybe_auto_analyze table buffered.row_count d4 in
            on_catalog d5 (e.refresh table d5.catalog d5.world))
          >>= λ _ d6. on_catalog d6 (e.compact table d6.catalog d6.world) >>= λ _ d7.
              done buffered.row_count d7

  unfoldable pub flush_table : Faults → String → Db e → Reply e ℕ
  unfolding write_rows get remove
  flush_table f table d = elim (get d.write_buffer table) [
    | none ↦ done 0 d
    | some buffered ↦
        (let d1 = record d { write_buffer = remove d.write_buffer table } in
          if buffered.row_count == 0 || is_empty buffered.batches
          then done 0 d1
          else write_rows f table buffered d1)
  ]

  unfoldable pub flush_tables : Faults → List String → Db e → Reply e ℕ
  unfolding flush_table
  flush_tables f [] d = done 0 d
  flush_tables f (table ∷ tables) d = flush_table f table d >>= λ n d1.
      flush_tables f tables d1 >>= λ m d2. done (saturating n m) d2

  abbrev pub buffered_tables : Db e → List String
  buffered_tables d = map (λ (entry : String × BufferedInsert e). entry.0) d.write_buffer

  unfoldable pub flush_all : Faults → Db e → Reply e ℕ
  unfolding flush_tables
  flush_all f d = flush_tables f (buffered_tables d) d

  -- `mentions` says whether the SQL in capitals contains the name of a table in capitals.
  unfoldable pub flush_buffered_for_sql : Faults → (String → Bool) → Db e → Reply e ℕ
  unfolding flush_tables flush_all
  flush_buffered_for_sql f mentions d =
      if is_empty d.write_buffer
      then done 0 d
      else let to_flush = filter mentions (buffered_tables d) in
        if is_empty to_flush then flush_all f d else flush_tables f to_flush d
