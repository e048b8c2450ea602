-- ===== src/Buffer/Taken.antt =====
-- What a flush leaves in the buffer, wherever it ends.
use potatodb.Prelude.{
  ℕ, ◌≡◌, refl, sym, ap, ◌∙◌, subst, String, Bool, true, false, ◌||◌, Option, none, some, [],
  is_empty, ◌==◌, if◌then◌else◌, str_eq, str_eq_iff, Bool-cases, inl, inr,
}
use potatodb.Prelude.HashMap.{HashMap, get, remove, get-remove}
use potatodb.Catalog.State.{Catalog}
use potatodb.Arrow.Log.{ArrowWal, Faults, Outcome, checkpoint_table}
use potatodb.Buffer.State.{
  Env, BufferedInsert, Db, Reply, done, failed, ◌>>=◌, before_insert, after_insert, target_columns,
}
use potatodb.Buffer.Flush.{
  checked, on_world, on_catalog, on_arrow, maybe_auto_analyze, next_temp_table, drop_log,
  write_rows, flush_table,
}
use potatodb.Buffer.Sound.{Ends}
use potatodb.Buffer.Stage.{same_analyzed}

module _ {e : Env} where
  -- The property of the state that a call leaves, whether it returns Ok or not.
  abbrev pub Leaves : {A : Type 0} → (Db e → Type 0) → Reply e A → Type 0
  Leaves P (done a d) = P d
  Leaves P (failed d) = P d

  pub Leaves-bind :
      {A B : Type 0} (P : Db e → Type 0) (m : Reply e A) (f : A → Db e → Reply e B)
      → Leaves P m
      → ((a : A) (d : Db e) → P d → Leaves P (f a d))
      → Leaves P (m >>= f)
  Leaves-bind P (done a d) f h k = k a d h
  Leaves-bind P (failed d) f h k = h

  pub Leaves-Ends : {A : Type 0} (P : Db e → Type 0) (m : Reply e A) → Leaves P m → Ends P m
  Leaves-Ends P (done a d) h = h
  Leaves-Ends P (failed d) h = tt

  Leaves-map :
      {A : Type 0} (P Q : Db e → Type 0) (m : Reply e A)
      → ((d : Db e) → P d → Q d)
      → Leaves P m
      → Leaves Q m
  Leaves-map P Q (done a d) f h = f d h
  Leaves-map P Q (failed d) f h = f d h

  module _ (B : HashMap (BufferedInsert e)) where
    abbrev Same : Db e → Type 0
    Same d = d.write_buffer ≡ B

    checked-Same : (d : Db e) (x : e.World × Option e.Merges) → Same d → Leaves Same (checked e d x)
    checked-Same d (world, none) h = h
    checked-Same d (world, some merges) h = h

    on_world-Same : (d : Db e) (x : e.World × Bool) → Same d → Leaves Same (on_world e d x)
    on_world-Same d (world, true) h = h
    on_world-Same d (world, false) h = h

    on_catalog-Same :
        (d : Db e) (x : Catalog × e.World × Bool) → Same d → Leaves Same (on_catalog e d x)
    on_catalog-Same d (catalog, world, true) h = h
    on_catalog-Same d (catalog, world, false) h = h

    drop_log-Same :
        (f : Faults) (table : String) (d : Db e) → Same d → Leaves Same (drop_log e f table d)
    drop_log-Same f table d h = opened d.arrow_wal
      where
        dropped : (o : Outcome) → Leaves Same (on_arrow e d o)
        dropped (Outcome.ok w) = h
        dropped (Outcome.err w) = h

        opened :
            (o : Option ArrowWal)
            → Leaves Same
                (elim o [ none ↦ done tt d | some w ↦ on_arrow e d (checkpoint_table f table w) ])
        opened none = h
        opened (some w) = dropped (checkpoint_table f table w)

    -- Nothing after the first step of a flush puts rows back into the buffer.
    write_rows-Same :
        (f : Faults) (table : String) (entry : BufferedInsert e) (d : Db e)
        → Same d
        → Leaves Same (write_rows e f table entry d)
    unfolding write_rows
    write_rows-Same f table entry d h =
        let columns = target_columns entry.columns (get d.catalog.tables table) in
        Leaves-bind Same _ _
          (checked-Same d (e.validate before_insert table columns entry.batches d.catalog d.world)
            h)
          λ merges d1 h1.
            Leaves-bind Same _ _
              (on_world-Same (next_temp_table e d1)
                (e.write d1.temp_table_counter table entry.columns entry.batches d1.catalog
                  d1.world)
                h1)
              λ u d2 h2.
                Leaves-bind Same _ _
                  (checked-Same d2 (e.validate after_insert table columns [] d2.catalog d2.world)
                    h2)
                  λ kept d3 h3.
                    Leaves-bind Same _ _
                      (drop_log-Same f table (record d3 { world = e.merge merges d3.world }) h3)
                      λ u d4 h4.
                        let d5 = maybe_auto_analyze e table entry.row_count d4 in
                        Leaves-bind Same _ _
                          (on_catalog-Same d5 (e.refresh table d5.catalog d5.world)
                            ((same_analyzed table entry.row_count d4).0 ∙ h4))
                          λ u d6 h6.
                            Leaves-bind Same _ _
                              (on_catalog-Same d6 (e.compact table d6.catalog d6.world) h6)
                              λ u d7 h7. h7

  -- A flush takes the table's entry out of the buffer, and no other one.
  pub flush_table-Leaves :
      (f : Faults) (table t : String) (d : Db e)
      → Leaves
          (λ x. get x.write_buffer t ≡ (if str_eq table t then none else get d.write_buffer t))
          (flush_table e f table d)
  unfolding flush_table
  flush_table-Leaves f table t d = taken (get d.write_buffer table) refl
    where
      rest : Db e
      rest = record d { write_buffer = remove d.write_buffer table }

      Taken : Db e → Type 0
      Taken x = get x.write_buffer t ≡ (if str_eq table t then none else get d.write_buffer t)

      unchanged : get d.write_buffer table ≡ none → Taken d
      unchanged q = elim (Bool-cases (str_eq table t)) [
        | inl z ↦ rw z (ap (get d.write_buffer) (sym ((str_eq_iff table t).0 z)) ∙ q)
        | inr z ↦ rw z refl
      ]

      taken :
          (o : Option (BufferedInsert e))
          → get d.write_buffer table ≡ o
          → Leaves {A = ℕ} Taken (elim o [
            | none ↦ done 0 d
            | some entry ↦
                (if entry.row_count == 0 || is_empty entry.batches
                  then done 0 rest
                  else write_rows e f table entry rest)
          ])
      taken none q = unchanged q
      taken (some entry) q = elim (Bool-cases (entry.row_count == 0 || is_empty entry.batches)) [
        | inl y ↦ rw y (get-remove d.write_buffer table t)
        | inr y ↦ rw y (
            Leaves-map (λ x. x.write_buffer ≡ rest.write_buffer) Taken
              (write_rows e f table entry rest)
              (λ x h. ap (λ B. get B t) h ∙ get-remove d.write_buffer table t)
              (write_rows-Same rest.write_buffer f table entry rest refl))
      ]

-- A flush that fails has taken the table's entry out of the buffer, wherever it fails, and leaves
-- the entries of the other tables.
pub flush_table_failed :
    {e : Env} (f : Faults) (table : String) (d d1 : Db e) (t : String)
    → flush_table e f table d ≡ failed d1
    → get d1.write_buffer t ≡ (if str_eq table t then none else get d.write_buffer t)
flush_table_failed f table d d1 t q =
    subst
      (Leaves λ x. get x.write_buffer t ≡ (if str_eq table t then none else get d.write_buffer t)) q
      (flush_table-Leaves f table t d)
