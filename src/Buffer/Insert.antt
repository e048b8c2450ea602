-- ===== src/Buffer/Insert.antt =====
-- `buffer_insert_batches`.
use potatodb.Prelude.{
  ℕ, ◌-◌, String, Bool, true, false, ◌&&◌, ◌||◌, Option, none, some, List, [], ◌∷◌, ◌++◌, take,
  length, is_empty, if◌then◌else◌, leb, ◌==◌, str_eq,
}
use potatodb.Prelude.HashMap.{get, insert}
use potatodb.Arrow.Log.{Faults, append}
use potatodb.Buffer.State.{
  Env, BufferedInsert, Db, Reply, done, failed, ◌>>=◌, before_insert, saturating, total,
  target_columns,
}
use potatodb.Buffer.Flush.{on_arrow, flush_table}

unfoldable pub names_eq : List String → List String → Bool
names_eq [] [] = true
names_eq (x ∷ xs) (y ∷ ys) = str_eq x y && names_eq xs ys
names_eq _ _ = false

unfoldable pub columns_eq : Option (List String) → Option (List String) → Bool
unfolding names_eq
columns_eq none none = true
columns_eq (some xs) (some ys) = names_eq xs ys
columns_eq _ _ = false

-- The file operations of the call, the time when it starts, and that of its last test.
pub record Moment : Type 0 where
  pub faults : Faults
  pub now : ℕ
  pub later : ℕ

module _ (e : Env) where
  open e use {ipc}

  abbrev pub empty_entry : Option (List String) → ℕ → BufferedInsert e
  empty_entry columns now = record {
    columns = columns;
    batches = [];
    row_count = 0;
    approx_bytes = 0;
    first_buffered_at = now;
  }

  abbrev pub entry_or_new : Option (List String) → ℕ → Option (BufferedInsert e) → BufferedInsert e
  entry_or_new columns now none = empty_entry columns now
  entry_or_new columns now (some entry) =
      if is_empty entry.batches
      then record entry { columns = columns; first_buffered_at = now }
      else entry

  abbrev pub extended : List ipc.Batch → BufferedInsert e → BufferedInsert e
  extended batches entry = record entry {
    batches = entry.batches ++ batches;
    row_count = saturating entry.row_count (total e.num_rows batches);
    approx_bytes = saturating entry.approx_bytes (total e.memory_size batches);
  }

  -- What a refused insert leaves: the counts from before, and the batches cut back.
  abbrev pub cut_back : BufferedInsert e → BufferedInsert e → BufferedInsert e
  cut_back before entry = record entry {
    batches = take (length before.batches) entry.batches;
    row_count = before.row_count;
    approx_bytes = before.approx_bytes;
  }

  abbrev pub put_entry : String → BufferedInsert e → Db e → Db e
  put_entry table entry d = record d { write_buffer = insert d.write_buffer table entry }

  abbrev pub keep_or_cut :
      String
      → BufferedInsert e
      → BufferedInsert e
      → Db e
      → e.World × Option e.Merges
      → Reply e (Unit {0})
  keep_or_cut table before entry d (world, none) =
      failed (put_entry table (cut_back before entry) (record d { world = world }))
  keep_or_cut table before entry d (world, some merges) = done tt (record d { world = world })

  abbrev pub log_batches : Moment → String → List ipc.Batch → Db e → Reply e (Unit {0})
  log_batches m table batches d = if d.replaying_wal then done tt d else elim d.arrow_wal [
    | none ↦ done tt d
    | some w ↦ on_arrow e d (append ipc m.faults m.now table batches w)
  ]

  abbrev pub is_full : Moment → Db e → Option (BufferedInsert e) → Bool
  is_full m d none = false
  is_full m d (some entry) =
      leb d.row_threshold entry.row_count
      || (leb d.byte_threshold entry.approx_bytes
          || leb d.time_threshold (m.later - entry.first_buffered_at))

  unfoldable pub flush_if_full : Moment → String → Db e → Reply e Bool
  unfolding flush_table get
  flush_if_full m table d =
      if is_full m d (get d.write_buffer table)
      then (flush_table e m.faults table d >>= λ _ d1. done true d1)
      else done false d

  -- The batches are put into the entry, checked with it, logged, and flushed if it is full.
  unfoldable pub buffer_into :
      Moment → String → List ipc.Batch → BufferedInsert e → Db e → Reply e (ℕ × Bool)
  unfolding insert flush_if_full
  buffer_into m table batches before d =
      let entry = extended batches before in
      let d1 = put_entry table entry d in
      keep_or_cut table before entry d1 (
        e.validate before_insert table (target_columns entry.columns (get d1.catalog.tables table))
          entry.batches d1.catalog d1.world)
      >>= λ _ d2. log_batches m table batches d2 >>= λ _ d3.
          flush_if_full m table d3 >>= λ full d4. done (total e.num_rows batches, full) d4

  -- An entry with other columns is flushed first.
  abbrev pub flush_other :
      Moment → String → Option (List String) → Db e → Option (BufferedInsert e) → Reply e (Unit {0})
  flush_other m table columns d none = done tt d
  flush_other m table columns d (some entry) =
      if columns_eq entry.columns columns
      then done tt d
      else (flush_table e m.faults table d >>= λ _ d1. done tt d1)

  unfoldable pub buffer_insert_batches :
      Moment → String → Option (List String) → List ipc.Batch → Db e → Reply e (ℕ × Bool)
  unfolding columns_eq flush_table buffer_into get
  buffer_insert_batches m table columns batches d =
      if total e.num_rows batches == 0
      then done (0, false) d
      else (flush_other m table columns d (get d.write_buffer table) >>= λ _ d1.
          buffer_into m table batches (entry_or_new columns m.now (get d1.write_buffer table)) d1)
