-- ===== src/Buffer/Stage.antt =====
-- A flush, step by step: the rows go to their table, and only then from the Arrow log.
use potatodb.Prelude.{
  ℕ, ◌≡◌, ◌≢◌, refl, sym, ap, ◌∙◌, subst, String, Bool, true, false, Option, none, some, List, [],
  if◌then◌else◌, str_eq, str_eq_iff, Bool-cases, inl, inr, arith,
}
use potatodb.Prelude.HashMap.{HashMap, get}
use potatodb.Catalog.Types.{TableMeta}
use potatodb.Catalog.State.{Catalog}
use potatodb.Arrow.Log.{ArrowWal, Faults, Outcome, checkpoint_table}
use potatodb.Buffer.State.{
  Env, BufferedInsert, Db, done, ConstraintValidationPhase, before_insert, after_insert,
  target_columns,
}
use potatodb.Buffer.Flush.{
  checked, check_constraints, on_world, on_catalog, on_arrow, maybe_auto_analyze, next_temp_table,
  drop_log, write_rows,
}
use potatodb.Buffer.Sound.{Sound, Ends, Ends-bind}

module _ {e : Env} where
  -- Counting rows for ANALYZE changes neither of these.
  pub same_analyzed :
      (table : String) (n : ℕ) (d : Db e)
      → ((maybe_auto_analyze e table n d).write_buffer ≡ d.write_buffer)
        × ((maybe_auto_analyze e table n d).world ≡ d.world)
        × ((maybe_auto_analyze e table n d).replaying_wal ≡ d.replaying_wal)
        × ((maybe_auto_analyze e table n d).catalog ≡ d.catalog)
        × ((maybe_auto_analyze e table n d).arrow_wal ≡ d.arrow_wal)
  unfolding maybe_auto_analyze
  same_analyzed table n d = (ground arith, ground arith, ground arith, ground arith, ground arith)

module _ {e : Env} (s : Sound e) where
  open s use {Content, content, put}

  -- Buffer, rows of the tables, and the flag for replay; the tables of `C` are in the catalog.
  pub record Stage (B : HashMap (BufferedInsert e)) (c : String → Content) (r : Bool)
      (C : HashMap TableMeta) (d : Db e) : Type 0 where
    pub buffer : d.write_buffer ≡ B
    pub rows : (t : String) → content d.world t ≡ c t
    pub mode : d.replaying_wal ≡ r
    pub tables : (t : String) → get d.catalog.tables t ≡ none → get C t ≡ none

  abbrev pub written :
      String → Option (List String) → List e.ipc.Batch → (String → Content) → String → Content
  written table columns xs c t = if str_eq table t then put (c t) columns xs else c t

  module _ (B : HashMap (BufferedInsert e)) (r : Bool) (C : HashMap TableMeta) where
    checked-Stage :
        (c : String → Content) (phase : ConstraintValidationPhase) (table : String)
        (columns : List String) (xs : List e.ipc.Batch) (d : Db e)
        → Stage B c r C d
        → Ends (Stage B c r C) (check_constraints e phase table columns xs d)
    checked-Stage c phase table columns xs d h =
        go (e.validate phase table columns xs d.catalog d.world)
          (λ t. s.content-validate phase table columns xs d.catalog d.world t ∙ h.rows t)
      where
        go :
            (x : e.World × Option e.Merges)
            → ((t : String) → content x.0 t ≡ c t)
            → Ends (Stage B c r C) (checked e d x)
        go (world, none) k = tt
        go (world, some merges) k = record {
          buffer = h.buffer;
          rows = k;
          mode = h.mode;
          tables = h.tables;
        }

    on_world-Stage :
        (c : String → Content) (tmp : ℕ) (table : String) (columns : Option (List String))
        (xs : List e.ipc.Batch) (d : Db e)
        → Stage B c r C d
        → Ends
            (Stage B (written table columns xs c) r C)
            (on_world e (next_temp_table e d) (e.write tmp table columns xs d.catalog d.world))
    on_world-Stage c tmp table columns xs d h =
        go (e.write tmp table columns xs d.catalog d.world) refl
      where
        go :
            (x : e.World × Bool)
            → e.write tmp table columns xs d.catalog d.world ≡ x
            → Ends (Stage B (written table columns xs c) r C) (on_world e (next_temp_table e d) x)
        go (world, false) q = tt
        go (world, true) q = record {
          buffer = h.buffer;
          rows = λ t. elim (Bool-cases (str_eq table t)) [
            | inl here ↦
                let same : table ≡ t = (str_eq_iff table t).0 here in
                rw here (
                  ap (λ x. content x.0 t) (sym q)
                  ∙ subst
                      (λ u.
                        content (e.write tmp table columns xs d.catalog d.world).0 u
                        ≡ put (content d.world u) columns xs)
                      same
                      (s.content-write tmp table columns xs d.catalog d.world (ap (λ x. x.1) q))
                  ∙ ap (λ k. put k columns xs) (h.rows t))
            | inr other ↦
                let differ : table ≢ t = λ eq. cc ((str_eq_iff table t).1 eq, other) in
                rw other (
                  ap (λ x. content x.0 t) (sym q)
                  ∙ s.content-write_other tmp table columns xs d.catalog d.world t differ
                  ∙ h.rows t)
          ];
          mode = h.mode;
          tables = h.tables;
        }

    on_catalog-Stage :
        (c : String → Content) (d : Db e) (x : Catalog × e.World × Bool)
        → Stage B c r C d
        → ((t : String) → content x.1 t ≡ content d.world t)
        → ((t : String) → get x.0.tables t ≡ none → get d.catalog.tables t ≡ none)
        → Ends (Stage B c r C) (on_catalog e d x)
    on_catalog-Stage c d (catalog, world, true) h k l = record {
      buffer = h.buffer;
      rows = λ t. k t ∙ h.rows t;
      mode = h.mode;
      tables = λ t q. h.tables t (l t q);
    }
    on_catalog-Stage c d (catalog, world, false) h k l = tt

    drop_log-Stage :
        (c : String → Content) (f : Faults) (table : String) (d : Db e)
        → Stage B c r C d
        → Ends (Stage B c r C) (drop_log e f table d)
    drop_log-Stage c f table d h = opened d.arrow_wal
      where
        checkpointed : (o : Outcome) → Ends (Stage B c r C) (on_arrow e d o)
        checkpointed (Outcome.ok w) = record {
          buffer = h.buffer;
          rows = h.rows;
          mode = h.mode;
          tables = h.tables;
        }
        checkpointed (Outcome.err w) = tt

        opened :
            (o : Option ArrowWal)
            → Ends
                (Stage B c r C)
                (elim o [ none ↦ done tt d | some w ↦ on_arrow e d (checkpoint_table f table w) ])
        opened none = h
        opened (some w) = checkpointed (checkpoint_table f table w)

    analyzed-Stage :
        (c : String → Content) (table : String) (n : ℕ) (d : Db e)
        → Stage B c r C d
        → Stage B c r C (maybe_auto_analyze e table n d)
    analyzed-Stage c table n d h =
        let (buffer, world, mode, catalog, wal) = same_analyzed table n d in
        record {
          buffer = buffer ∙ h.buffer;
          rows = λ t. ap (λ w. content w t) world ∙ h.rows t;
          mode = mode ∙ h.mode;
          tables = λ t q. h.tables t (ap (λ k. get k.tables t) (sym catalog) ∙ q);
        }

    pub write_rows-Stage :
        (c : String → Content) (f : Faults) (table : String) (entry : BufferedInsert e) (d : Db e)
        → Stage B c r C d
        → Ends
            (Stage B (written table entry.columns entry.batches c) r C)
            (write_rows e f table entry d)
    unfolding write_rows
    write_rows-Stage c f table entry d h =
        let columns = target_columns entry.columns (get d.catalog.tables table) in
        let S = Stage B c r C in
        let T = Stage B (written table entry.columns entry.batches c) r C in
        Ends-bind S T _ _ (checked-Stage c before_insert table columns entry.batches d h)
          λ merges d1 h1.
            Ends-bind T T _ _
              (on_world-Stage c d1.temp_table_counter table entry.columns entry.batches d1 h1)
              λ u d2 h2.
                Ends-bind T T _ _ (checked-Stage _ after_insert table columns [] d2 h2)
                  λ kept d3 h3.
                    Ends-bind T T _ _
                      (drop_log-Stage _ f table (record d3 { world = e.merge merges d3.world })
                        (record {
                          buffer = h3.buffer;
                          rows = λ t. s.content-merge merges d3.world t ∙ h3.rows t;
                          mode = h3.mode;
                          tables = h3.tables;
                        }))
                      λ u d4 h4.
                        let d5 = maybe_auto_analyze e table entry.row_count d4 in
                        Ends-bind T T _ _
                          (on_catalog-Stage _ d5 (e.refresh table d5.catalog d5.world)
                            (analyzed-Stage _ table entry.row_count d4 h4)
                            (s.content-refresh table d5.catalog d5.world)
                            (s.tables-refresh table d5.catalog d5.world))
                          λ u d6 h6.
                            Ends-bind T T _ _
                              (on_catalog-Stage _ d6 (e.compact table d6.catalog d6.world) h6
                                (s.content-compact table d6.catalog d6.world)
                                (s.tables-compact table d6.catalog d6.world))
                              λ u d7 h7. h7
