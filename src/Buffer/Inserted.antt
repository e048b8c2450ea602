-- ===== src/Buffer/Inserted.antt =====
-- What is buffered after an insert.
use potatodb.Prelude.{
  ℕ, ◌+◌, ◌≡◌, ◌≢◌, refl, sym, ◌∙◌, String, Bool, false, Option, none, some, List, ◌==◌, str_eq,
  Bool-cases, inl, inr, arith,
}
use potatodb.Prelude.HashMap.{HashMap, get}
use potatodb.Catalog.Types.{TableMeta}
use potatodb.Arrow.Holds.{Logged, added, cleared}
use potatodb.Buffer.State.{Env, BufferedInsert, Db, before_insert, total, target_columns}
use potatodb.Buffer.Flush.{flush_table}
use potatodb.Buffer.Insert.{
  Moment, entry_or_new, extended, is_full, flush_if_full, columns_eq, buffer_into, flush_other,
  buffer_insert_batches,
}
use potatodb.Buffer.Sound.{Sound, Ends, Ends-bind}
use potatodb.Buffer.Stage.{written}
use potatodb.Buffer.Buffered.{
  Both, Pending, flush_table-Both, validated-Pending, log_batches-Both, entry_or_new_lem,
}

module _ {e : Env} (s : Sound e) (C : HashMap TableMeta) (r : Bool) where
  open s use {Content, content, put}

  -- What may be buffered after an insert: the other tables' batches as before.
  abbrev pub After : Logged e.ipc → (String → Content) → ℕ → String → Db e → Type 0
  After L g room table d =
      (L1 : Logged e.ipc) × ((t : String) → str_eq table t ≡ false → L1 t ≡ L t)
      × Both s C r L1 g room d

  flush_if_full-After :
      (L L1 : Logged e.ipc) (g : String → Content) (room : ℕ) (m : Moment) (table : String)
      (d : Db e)
      → ((t : String) → str_eq table t ≡ false → L1 t ≡ L t)
      → Both s C r L1 g room d
      → Ends (After L g room table) (flush_if_full e m table d)
  unfolding flush_if_full
  flush_if_full-After L L1 g room m table d others h =
      elim (Bool-cases (is_full e m d (get d.write_buffer table))) [
        | inl q ↦ rw q (
            Ends-bind (Both s C r (cleared e.ipc table L1) g room) (After L g room table)
              (flush_table e m.faults table d) _
              (flush_table-Both s C r L1 g room m.faults table d h)
              λ n d1 k. (cleared e.ipc table L1, λ t z. rw z (others t z), k))
        | inr q ↦ rw q (L1, others, h)
      ]

  buffer_into-After :
      (L : Logged e.ipc) (g : String → Content) (room : ℕ) (m : Moment) (table : String)
      (batches : List e.ipc.Batch) (before : BufferedInsert e) (d : Db e)
      → total e.num_rows batches ≢ 0
      → before.columns ≡ none
      → before.batches ≡ L table
      → Both s C r L g (room + 1) d
      → Ends
          (After L (written s table none batches g) room table)
          (buffer_into e m table batches before d)
  unfolding buffer_into
  buffer_into-After L g room m table batches before d ne cs at h =
      let entry = extended e batches before in
      let L1 = added e.ipc table batches L in
      let g1 = written s table none batches g in
      let columns = target_columns entry.columns (get d.catalog.tables table) in
      Ends-bind (Pending s C r L g (room + 1) table batches) (After L g1 room table) _ _
        (validated-Pending s C r L g (room + 1) table batches before d
          (e.validate before_insert table columns entry.batches d.catalog d.world) ne cs at
          (s.content-validate before_insert table columns entry.batches d.catalog d.world) h)
        λ u d1 h1.
          Ends-bind (Both s C r L1 g1 room) (After L g1 room table) _ _
            (log_batches-Both s C r L g room m table batches d1 h1)
            λ u d2 h2.
              Ends-bind (After L g1 room table) (After L g1 room table) _ _
                (flush_if_full-After L L1 g1 room m table d2 (λ t z. rw z refl) h2) λ full d3 h3. h3

  fewer :
      (L : Logged e.ipc) (g : String → Content) (room : ℕ) (d : Db e)
      → Both s C r L g (room + 1) d
      → Both s C r L g room d
  fewer L g room d (h, k) =
      (h, λ z. let (w, at, holds, lt) = k z in (w, at, holds, omega (arith, lt)))

  -- An insert without rows changes nothing.
  pub no_rows :
      (L : Logged e.ipc) (g : String → Content) (room : ℕ) (table : String)
      (batches : List e.ipc.Batch) (d : Db e)
      → total e.num_rows batches ≡ 0
      → Both s C r L g room d
      → Both s C r L (written s table none batches g) room d
  no_rows L g room table batches d zero (h, k) = (
    record {
      held = h.held;
      stored = λ t. elim (Bool-cases (str_eq table t)) [
        | inl q ↦ rw q (h.stored t ∙ sym (s.put_empty (g t) none batches zero))
        | inr q ↦ rw q (h.stored t)
      ];
      plain = h.plain;
      mode = h.mode;
      tables = h.tables;
    },
    k,
  )

  flush_other-Both :
      (L : Logged e.ipc) (g : String → Content) (room : ℕ) (m : Moment) (table : String) (d : Db e)
      → Both s C r L g room d
      → Ends (Both s C r L g room) (flush_other e m table none d (get d.write_buffer table))
  unfolding columns_eq
  flush_other-Both L g room m table d h = go (get d.write_buffer table) refl
    where
      go :
          (o : Option (BufferedInsert e))
          → get d.write_buffer table ≡ o
          → Ends (Both s C r L g room) (flush_other e m table none d o)
      go none q = h
      go (some entry) q = rw ((h.0.plain table entry q).0) h

  pub buffer_insert_batches-After :
      (L : Logged e.ipc) (g : String → Content) (room : ℕ) (m : Moment) (table : String)
      (batches : List e.ipc.Batch) (d : Db e)
      → Both s C r L g (room + 1) d
      → Ends
          (After L (written s table none batches g) room table)
          (buffer_insert_batches e m table none batches d)
  unfolding buffer_insert_batches
  buffer_insert_batches-After L g room m table batches d h =
      elim (Bool-cases (total e.num_rows batches == 0)) [
        | inl q ↦ rw q (
          L,
          λ t z. refl,
          no_rows L g room table batches d (ground (arith, q)) (fewer L g room d h),
        )
        | inr q ↦ rw q (
            Ends-bind (Both s C r L g (room + 1))
              (After L (written s table none batches g) room table)
              (flush_other e m table none d (get d.write_buffer table)) _
              (flush_other-Both L g (room + 1) m table d h)
              λ u d1 h1.
                let before = entry_or_new e none m.now (get d1.write_buffer table) in
                let (cs, at) = entry_or_new_lem s C r L g m.now table d1 h1.0 in
                buffer_into-After L g room m table batches before d1 (ground (arith, q)) cs at h1)
      ]
