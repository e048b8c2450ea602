-- ===== src/Buffer/Logged.antt =====
-- What a flush leaves in the Arrow log.
use potatodb.Prelude.{
  ℕ, ◌≡◌, refl, sym, ◌∙◌, subst, String, Bool, true, false, Option, none, some, [],
}
use potatodb.Prelude.HashMap.{get}
use potatodb.Catalog.State.{Catalog}
use potatodb.Arrow.Log.{ArrowWal, Faults, Outcome, checkpoint_table}
use potatodb.Arrow.Holds.{Then, Logged, cleared, Keeps}
use potatodb.Arrow.Reopen.{checkpoint_table-Keeps}
use potatodb.Buffer.State.{
  Env, BufferedInsert, Db, done, before_insert, after_insert, target_columns,
}
use potatodb.Buffer.Flush.{
  checked, on_world, on_catalog, on_arrow, maybe_auto_analyze, next_temp_table, drop_log,
  write_rows,
}
use potatodb.Buffer.Sound.{Ends, Ends-bind}
use potatodb.Buffer.Stage.{same_analyzed}

module _ {e : Env} where
  -- The Arrow log, and what it holds.
  abbrev pub Log : Logged e.ipc → ℕ → Db e → Type 0
  Log L hi d = (w : ArrowWal) × (d.arrow_wal ≡ some w) × Keeps e.ipc L hi w

  module _ (L : Logged e.ipc) (hi : ℕ) where
    -- The log of the table is dropped, and that of the others stays.
    drop_log-Log :
        (f : Faults) (table : String) (d : Db e)
        → Log L hi d
        → Ends (Log (cleared e.ipc table L) hi) (drop_log e f table d)
    drop_log-Log f table d (w, at, h) =
        subst
          (λ o.
            Ends (Log (cleared e.ipc table L) hi)
              (elim o [ none ↦ done tt d | some v ↦ on_arrow e d (checkpoint_table f table v) ]))
          (sym at) (go (checkpoint_table f table w) (checkpoint_table-Keeps e.ipc f table w L hi h))
      where
        go :
            (o : Outcome)
            → Then (Keeps e.ipc (cleared e.ipc table L) hi) o
            → Ends (Log (cleared e.ipc table L) hi) (on_arrow e d o)
        go (Outcome.ok v) k = (v, refl, k)
        go (Outcome.err v) k = tt

    checked-Log :
        (d : Db e) (x : e.World × Option e.Merges) → Log L hi d → Ends (Log L hi) (checked e d x)
    checked-Log d (world, none) h = tt
    checked-Log d (world, some merges) h = h

    on_world-Log : (d : Db e) (x : e.World × Bool) → Log L hi d → Ends (Log L hi) (on_world e d x)
    on_world-Log d (world, true) h = h
    on_world-Log d (world, false) h = tt

    on_catalog-Log :
        (d : Db e) (x : Catalog × e.World × Bool) → Log L hi d → Ends (Log L hi) (on_catalog e d x)
    on_catalog-Log d (catalog, world, true) h = h
    on_catalog-Log d (catalog, world, false) h = tt

  pub write_rows-Log :
      (L : Logged e.ipc) (hi : ℕ) (f : Faults) (table : String) (entry : BufferedInsert e)
      (d : Db e)
      → Log L hi d
      → Ends (Log (cleared e.ipc table L) hi) (write_rows e f table entry d)
  unfolding write_rows
  write_rows-Log L hi f table entry d h =
      let P = Log L hi in
      let Q = Log (cleared e.ipc table L) hi in
      let columns = target_columns entry.columns (get d.catalog.tables table) in
      Ends-bind P Q _ _
        (checked-Log L hi d (e.validate before_insert table columns entry.batches d.catalog d.world)
          h)
        λ merges d1 h1.
          Ends-bind P Q _ _
            (on_world-Log L hi (next_temp_table e d1)
              (e.write d1.temp_table_counter table entry.columns entry.batches d1.catalog d1.world)
              h1)
            λ u d2 h2.
              Ends-bind P Q _ _
                (checked-Log L hi d2 (e.validate after_insert table columns [] d2.catalog d2.world)
                  h2)
                λ kept d3 h3.
                  Ends-bind Q Q _ _
                    (drop_log-Log L hi f table (record d3 { world = e.merge merges d3.world }) h3)
                    λ u d4 h4.
                      let d5 = maybe_auto_analyze e table entry.row_count d4 in
                      Ends-bind Q Q _ _
                        (on_catalog-Log (cleared e.ipc table L) hi d5
                          (e.refresh table d5.catalog d5.world)
                          (h4.0, (same_analyzed table entry.row_count d4).4 ∙ h4.1, h4.2))
                        λ u d6 h6.
                          Ends-bind Q Q _ _
                            (on_catalog-Log (cleared e.ipc table L) hi d6
                              (e.compact table d6.catalog d6.world) h6)
                            λ u d7 h7. h7
