-- ===== src/Buffer/Errors.antt =====
-- What an insert leaves when it fails.
use potatodb.Prelude.{
  ◌≡◌, ◌≢◌, refl, ap, ◌∙◌, String, false, Option, none, some, List, ◌++◌, take-append, length, ◌==◌,
  if◌then◌else◌, str_eq, str_eq_iff, Bool-cases, inl, inr, arith,
}
use potatodb.Prelude.HashMap.{get, get-insert, get-remove}
use potatodb.Arrow.Log.{ArrowWal, Outcome, append}
use potatodb.Buffer.State.{
  Env, BufferedInsert, Db, Reply, done, failed, ◌>>=◌, before_insert, total, target_columns,
}
use potatodb.Buffer.Flush.{on_arrow}
use potatodb.Buffer.Insert.{
  Moment, entry_or_new, extended, cut_back, put_entry, keep_or_cut, log_batches, flush_if_full,
  columns_eq, flush_other, buffer_into, buffer_insert_batches,
}
use potatodb.Buffer.Sound.{batches_in, buffered}

module _ {e : Env} where
  -- The entry that an insert extends, and the world after its check.
  abbrev pub entry_before : Moment → String → Db e → BufferedInsert e
  entry_before m table d = entry_or_new e none m.now (get d.write_buffer table)

  abbrev pub check : Moment → String → List e.ipc.Batch → Db e → e.World × Option e.Merges
  check m table batches d =
      let entry = extended e batches (entry_before m table d) in
      e.validate before_insert table (target_columns entry.columns (get d.catalog.tables table))
        entry.batches d.catalog d.world

  entry_before_batches :
      (m : Moment) (table : String) (d : Db e)
      → (entry_before m table d).batches ≡ buffered d.write_buffer table
  entry_before_batches m table d = go (get d.write_buffer table)
    where
      go : (o : Option (BufferedInsert e)) → (entry_or_new e none m.now o).batches ≡ batches_in o
      go none = refl
      go (some entry) = ground arith

  -- No entry is flushed first.
  nothing_flushed :
      (m : Moment) (table : String) (d : Db e)
      → ((entry : BufferedInsert e) → get d.write_buffer table ≡ some entry → entry.columns ≡ none)
      → flush_other e m table none d (get d.write_buffer table) ≡ done tt d
  unfolding columns_eq
  nothing_flushed m table d plain = go (get d.write_buffer table) refl
    where
      go :
          (o : Option (BufferedInsert e))
          → get d.write_buffer table ≡ o
          → flush_other e m table none d o ≡ done tt d
      go none q = refl
      go (some entry) q = rw (plain entry q) refl

  goes_on :
      (m : Moment) (table : String) (batches : List e.ipc.Batch) (d : Db e)
      → total e.num_rows batches ≢ 0
      → ((entry : BufferedInsert e) → get d.write_buffer table ≡ some entry → entry.columns ≡ none)
      → buffer_insert_batches e m table none batches d
        ≡ buffer_into e m table batches (entry_before m table d) d
  unfolding buffer_insert_batches
  goes_on m table batches d ne plain =
      let some_rows : (total e.num_rows batches == 0) ≡ false = ground (arith, ne) in
      rw some_rows (
        ap (λ r. r >>= λ _ d1. buffer_into e m table batches (entry_before m table d1) d1)
          (nothing_flushed m table d plain))

-- An insert without a list of columns, where the buffer has no entry with one, whose batches the
-- constraint check refuses, fails, and leaves the batches of every table in the buffer as they were.
buffer_insert_batches_refused :
    {e : Env} (m : Moment) (table : String) (batches : List e.ipc.Batch) (d : Db e) (w : e.World)
    → total e.num_rows batches ≢ 0
    → ((entry : BufferedInsert e) → get d.write_buffer table ≡ some entry → entry.columns ≡ none)
    → check m table batches d ≡ (w, none)
    → (d1 : Db e) × (buffer_insert_batches e m table none batches d ≡ failed d1)
      × ((t : String) → buffered d1.write_buffer t ≡ buffered d.write_buffer t)
unfolding buffer_into
buffer_insert_batches_refused {e} m table batches d w ne plain refused =
    let before = entry_before m table d in
    let entry = extended e batches before in
    let d0 = put_entry e table entry d in
    (
      put_entry e table (cut_back e before entry) (record d0 { world = w }),
      goes_on m table batches d ne plain
          ∙ ap
              (λ x. keep_or_cut e table before entry d0 x >>= λ _ d2.
                log_batches e m table batches d2 >>= λ _ d3.
                flush_if_full e m table d3 >>= λ full d4. done (total e.num_rows batches, full) d4)
              refused,
      λ t. elim (Bool-cases (str_eq table t)) [
        | inl q ↦
            rw (get-insert d0.write_buffer table t (cut_back e before entry), q)
              (take-append (length before.batches) before.batches batches refl
                ∙ entry_before_batches m table d
                ∙ ap (buffered d.write_buffer) ((str_eq_iff table t).0 q))
        | inr q ↦
            rw
              (
                get-insert d0.write_buffer table t (cut_back e before entry),
                q,
                get-remove d.write_buffer table t,
                q,
              )
              refl
      ],
    )

-- An insert without a list of columns, where the buffer has no entry with one, whose batches pass
-- the check and then cannot be appended to the Arrow log, fails as well, but leaves the batches in
-- the buffer.
pub buffer_insert_batches_unlogged :
    {e : Env} (m : Moment) (table : String) (batches : List e.ipc.Batch) (d : Db e) (w : e.World)
    (merges : e.Merges) (v v1 : ArrowWal)
    → total e.num_rows batches ≢ 0
    → ((entry : BufferedInsert e) → get d.write_buffer table ≡ some entry → entry.columns ≡ none)
    → check m table batches d ≡ (w, some merges)
    → d.replaying_wal ≡ false
    → d.arrow_wal ≡ some v
    → append e.ipc m.faults m.now table batches v ≡ Outcome.err v1
    → (d1 : Db e) × (buffer_insert_batches e m table none batches d ≡ failed d1)
      × (buffered d1.write_buffer table ≡ buffered d.write_buffer table ++ batches)
unfolding buffer_into
buffer_insert_batches_unlogged {e} m table batches d w merges v v1 ne plain passed off at broken =
    let before = entry_before m table d in
    let entry = extended e batches before in
    let d0 = put_entry e table entry d in
    (
      record d0 { world = w; arrow_wal = some v1 },
      goes_on m table batches d ne plain
          ∙ ap
              (λ x. keep_or_cut e table before entry d0 x >>= λ _ d2.
                log_batches e m table batches d2 >>= λ _ d3.
                flush_if_full e m table d3 >>= λ full d4. done (total e.num_rows batches, full) d4)
              passed
          ∙ ap
              (λ r. r >>= λ _ d3.
                flush_if_full e m table d3 >>= λ full d4. done (total e.num_rows batches, full) d4)
              (not_logged (record d0 { world = w }) off at),
      rw (get-insert d.write_buffer table table entry, (str_eq_iff table table).1 refl)
          (ap (λ bs. bs ++ batches) (entry_before_batches m table d)),
    )
  where
    opened : Db e → Option ArrowWal → Reply e (Unit {0})
    opened d2 none = done tt d2
    opened d2 (some w) = on_arrow e d2 (append e.ipc m.faults m.now table batches w)

    not_logged :
        (d2 : Db e)
        → d2.replaying_wal ≡ false
        → d2.arrow_wal ≡ some v
        → log_batches e m table batches d2 ≡ failed (record d2 { arrow_wal = some v1 })
    not_logged d2 off at =
        ap (λ b. if b then done tt d2 else opened d2 d2.arrow_wal) off
        ∙ ap (opened d2) at
        ∙ ap (on_arrow e d2) broken
