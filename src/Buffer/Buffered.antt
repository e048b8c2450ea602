-- ===== src/Buffer/Buffered.antt =====
-- A buffered insert keeps the rows of the tables, the buffer and the Arrow log together.
use potatodb.Prelude.{
  ℕ, ◌+◌, ◌≤◌, ◌<◌, ◌≡◌, ◌≢◌, refl, sym, ap, ◌∙◌, subst, String, Bool, true, false, Option, none,
  some, List, ◌++◌, is_empty, if◌then◌else◌, str_eq, str_eq_iff, Bool-cases, inl, inr, arith,
}
use potatodb.Prelude.HashMap.{HashMap, get, get-insert}
use potatodb.Catalog.Types.{TableMeta}
use potatodb.Arrow.Log.{ArrowWal, Faults, Outcome, append}
use potatodb.Arrow.Holds.{Then, Logged, added, cleared, Holds}
use potatodb.Arrow.Keeps.{append-Appended}
use potatodb.Buffer.State.{Env, BufferedInsert, Db, Reply, done, failed, saturating, total}
use potatodb.Buffer.Flush.{on_arrow, flush_table}
use potatodb.Buffer.Insert.{Moment, entry_or_new, extended, put_entry, keep_or_cut, log_batches}
use potatodb.Buffer.Sound.{Sound, Ends, batches_in}
use potatodb.Buffer.Stage.{written}
use potatodb.Buffer.Rows.{Plain, Ends-both, Ends-map, Rows, flush_table-Rows, flush_table-Log}

module _ {e : Env} where
  -- The Arrow log is open, holds `L`, and has numbers for `room` more files.
  abbrev pub Fits : Logged e.ipc → ℕ → Db e → Type 0
  Fits L room d =
      (w : ArrowWal) × (d.arrow_wal ≡ some w) × Holds e.ipc w.dir w.seq L × (w.seq + room < 1000000)

  -- A condition that the state does not change.
  Ends-when :
      {A : Type 0} (X : Type 0) (P : Db e → Type 0) (m : Reply e A)
      → (X → Ends P m)
      → Ends (λ d. X → P d) m
  Ends-when X P (done a d) h = h
  Ends-when X P (failed d) h = tt

  module _ (s : Sound e) (C : HashMap TableMeta) (r : Bool) where
    open s use {Content, content, put}

    -- While no log is replayed, what is buffered is what the Arrow log holds.
    abbrev pub Both : Logged e.ipc → (String → Content) → ℕ → Db e → Type 0
    Both L g room d = Rows s C r L g d × (r ≡ false → Fits L room d)

    pub flush_table-Both :
        (L : Logged e.ipc) (g : String → Content) (room : ℕ) (f : Faults) (table : String)
        (d : Db e)
        → Both L g room d
        → Ends (Both (cleared e.ipc table L) g room) (flush_table e f table d)
    flush_table-Both L g room f table d (h, k) =
        Ends-both (Rows s C r (cleared e.ipc table L) g)
          (λ d1. r ≡ false → Fits (cleared e.ipc table L) room d1) (flush_table e f table d)
          (flush_table-Rows s C r L g f table d h)
          (Ends-when (r ≡ false) (Fits (cleared e.ipc table L) room) (flush_table e f table d) λ z.
            let (w, at, holds, lt) = k z in
            Ends-map _ (Fits (cleared e.ipc table L) room) (flush_table e f table d)
              (λ d1 (v, at1, (holds1, seq)). (
                v,
                at1,
                subst (λ n. Holds e.ipc v.dir n (cleared e.ipc table L)) (sym seq) holds1,
                omega (arith, seq, lt),
              ))
              (flush_table-Log L w.seq f table d (h.plain table) (h.held table)
                (w, at, (holds, refl))))

    -- The entry that the batches are put to.
    pub entry_or_new_lem :
        (L : Logged e.ipc) (g : String → Content) (now : ℕ) (table : String) (d : Db e)
        → Rows s C r L g d
        → ((entry_or_new e none now (get d.write_buffer table)).columns ≡ none)
          × ((entry_or_new e none now (get d.write_buffer table)).batches ≡ L table)
    entry_or_new_lem L g now table d h = go (get d.write_buffer table) refl
      where
        go :
            (o : Option (BufferedInsert e))
            → get d.write_buffer table ≡ o
            → ((entry_or_new e none now o).columns ≡ none)
              × ((entry_or_new e none now o).batches ≡ L table)
        go none q = (refl, sym (ap batches_in q) ∙ h.held table)
        go (some entry) q =
            let at : entry.batches ≡ L table = sym (ap batches_in q) ∙ h.held table in
            elim (Bool-cases (is_empty entry.batches)) [
              | inl z ↦ rw z (refl, at)
              | inr z ↦ rw z ((h.plain table entry q).0, at)
            ]

    has_rows : (a b : ℕ) → b ≢ 0 → saturating a b ≢ 0
    has_rows a b ne = omega (arith, ne)

    -- The batches are in the buffer, and not yet in the log.
    put_entry-Rows :
        (L : Logged e.ipc) (g : String → Content) (table : String) (batches : List e.ipc.Batch)
        (before : BufferedInsert e) (d : Db e) (w : e.World)
        → total e.num_rows batches ≢ 0
        → before.columns ≡ none
        → before.batches ≡ L table
        → ((t : String) → content w t ≡ content d.world t)
        → Rows s C r L g d
        → Rows s C r
            (added e.ipc table batches L)
            (written s table none batches g)
            (record (put_entry e table (extended e batches before) d) { world = w })
    put_entry-Rows L g table batches before d w ne cs at same h =
        let entry = extended e batches before in
        record {
          held = λ t. elim (Bool-cases (str_eq table t)) [
            | inl q ↦
                rw (get-insert d.write_buffer table t entry, q)
                  (ap (λ bs. bs ++ batches) (at ∙ ap L ((str_eq_iff table t).0 q)))
            | inr q ↦ rw (get-insert d.write_buffer table t entry, q) (h.held t)
          ];
          stored = λ t. elim (Bool-cases (str_eq table t)) [
            | inl q ↦
                rw (q, same t)
                  (sym (s.put-append (content d.world t) none (L t) batches)
                    ∙ ap (λ c. put c none batches) (h.stored t))
            | inr q ↦ rw (q, same t) (h.stored t)
          ];
          plain = λ t x q. elim (Bool-cases (str_eq table t)) [
            | inl z ↦
                let here : entry ≡ x =
                  ground (arith, get-insert d.write_buffer table t entry, q, z) in
                subst Plain here (
                  cs,
                  λ zero. absurd (has_rows before.row_count (total e.num_rows batches) ne zero),
                )
            | inr z ↦ h.plain t x (ground (arith, get-insert d.write_buffer table t entry, q, z))
          ];
          mode = h.mode;
          tables = h.tables;
        }

    -- The batches are in the buffer, and the log is as before.
    abbrev pub Pending :
        Logged e.ipc → (String → Content) → ℕ → String → List e.ipc.Batch → Db e → Type 0
    Pending L g room table batches d =
        Rows s C r (added e.ipc table batches L) (written s table none batches g) d
        × (r ≡ false → Fits L room d)

    pub validated-Pending :
        (L : Logged e.ipc) (g : String → Content) (room : ℕ) (table : String)
        (batches : List e.ipc.Batch) (before : BufferedInsert e) (d : Db e)
        (x : e.World × Option e.Merges)
        → total e.num_rows batches ≢ 0
        → before.columns ≡ none
        → before.batches ≡ L table
        → ((t : String) → content x.0 t ≡ content d.world t)
        → Both L g room d
        → Ends (Pending L g room table batches) (
            keep_or_cut e table before
              (extended e batches before)
              (put_entry e table (extended e batches before) d)
              x)
    validated-Pending L g room table batches before d (w, none) ne cs at same h = tt
    validated-Pending L g room table batches before d (w, some merges) ne cs at same h =
        (put_entry-Rows L g table batches before d w ne cs at same h.0, h.1)

    -- The Arrow log follows.
    pub log_batches-Both :
        (L : Logged e.ipc) (g : String → Content) (room : ℕ) (m : Moment) (table : String)
        (batches : List e.ipc.Batch) (d : Db e)
        → Pending L g (room + 1) table batches d
        → Ends
            (Both (added e.ipc table batches L) (written s table none batches g) room)
            (log_batches e m table batches d)
    log_batches-Both L g room m table batches d (h, k) = replayed d.replaying_wal refl
      where
        Kept : Db e → Type 0
        Kept = Both (added e.ipc table batches L) (written s table none batches g) room

        appended :
            (o : Outcome) (hi : ℕ)
            → hi + (room + 1) < 1000000
            → Then (λ v. Holds e.ipc v.dir v.seq (added e.ipc table batches L) × (v.seq ≤ hi + 1)) o
            → Ends Kept (on_arrow e d o)
        appended (Outcome.ok v) hi lt (kept, le) = (
          record {
            held = h.held;
            stored = h.stored;
            plain = h.plain;
            mode = h.mode;
            tables = h.tables;
          },
          λ z. (v, refl, kept, omega (arith, le, lt)),
        )
        appended (Outcome.err v) hi lt kept = tt

        opened :
            (o : Option ArrowWal)
            → d.arrow_wal ≡ o
            → Fits L (room + 1) d
            → Ends {A = Unit {0}} Kept (elim o [
              | none ↦ done tt d
              | some w ↦ on_arrow e d (append e.ipc m.faults m.now table batches w)
            ])
        opened none q (w, at, holds, lt) = cc
        opened (some v) q (w, at, holds, lt) =
            let same : w ≡ v = ground (arith, at, q) in
            appended (append e.ipc m.faults m.now table batches v) v.seq
              (subst (λ x. x.seq + (room + 1) < 1000000) same lt)
              (append-Appended e.ipc m.faults m.now table batches v L
                (subst (λ x. Holds e.ipc x.dir x.seq L) same holds)
                (omega (arith, subst (λ x. x.seq + (room + 1) < 1000000) same lt)))

        replayed :
            (b : Bool)
            → d.replaying_wal ≡ b
            → Ends {A = Unit {0}} Kept (
                if b then done tt d else elim d.arrow_wal [
                  | none ↦ done tt d
                  | some w ↦ on_arrow e d (append e.ipc m.faults m.now table batches w)
                ])
        replayed true q = (h, λ z. let m = h.mode in cc)
        replayed false q = opened d.arrow_wal refl (k (sym h.mode ∙ q))
