-- ===== src/Buffer/Rows.antt =====
-- Stored and buffered rows together, and that a flush keeps them.
use potatodb.Prelude.{
  ℕ, ◌≡◌, refl, sym, ap, ◌∙◌, String, Bool, true, false, ◌||◌, Option, none, some, [], append-nil,
  is_empty, ◌==◌, if◌then◌else◌, str_eq, str_eq_iff, Bool-cases, inl, inr, arith,
}
use potatodb.Prelude.HashMap.{HashMap, get, remove, get-remove}
use potatodb.Catalog.Types.{TableMeta}
use potatodb.Arrow.Log.{Ipc, Faults}
use potatodb.Arrow.Holds.{Logged, cleared, Keeps}
use potatodb.Arrow.Keeps.{Holds-ext}
use potatodb.Buffer.State.{Env, BufferedInsert, Db, Reply, done, failed}
use potatodb.Buffer.Flush.{flush_table, write_rows}
use potatodb.Buffer.Sound.{Sound, Ends, batches_in, buffered}
use potatodb.Buffer.Stage.{Stage, written, write_rows-Stage}
use potatodb.Buffer.Logged.{Log, write_rows-Log}

pub cleared_same :
    (ipc : Ipc) (L : Logged ipc) (table : String)
    → L table ≡ []
    → (t : String) → cleared ipc table L t ≡ L t
cleared_same ipc L table empty t = elim (Bool-cases (str_eq table t)) [
  | inl q ↦ rw q (sym empty ∙ ap L ((str_eq_iff table t).0 q))
  | inr q ↦ rw q refl
]

module _ {e : Env} where
  -- Buffered without a list of columns, and not without rows.
  abbrev pub Plain : BufferedInsert e → Type 0
  Plain entry = (entry.columns ≡ none) × (entry.row_count ≡ 0 → entry.batches ≡ [])

  -- A call that has both properties has their product.
  pub Ends-both :
      {A : Type 0} (P Q : Db e → Type 0) (m : Reply e A)
      → Ends P m
      → Ends Q m
      → Ends (λ d. P d × Q d) m
  Ends-both P Q (done a d) h k = (h, k)
  Ends-both P Q (failed d) h k = tt

  pub Ends-map :
      {A : Type 0} (P Q : Db e → Type 0) (m : Reply e A)
      → ((d : Db e) → P d → Q d)
      → Ends P m
      → Ends Q m
  Ends-map P Q (done a d) f h = f d h
  Ends-map P Q (failed d) f h = tt

  buffered-remove :
      (B : HashMap (BufferedInsert e)) (table t : String)
      → buffered (remove B table) t ≡ (if str_eq table t then [] else buffered B t)
  buffered-remove B table t = elim (Bool-cases (str_eq table t)) [
    | inl q ↦ rw (get-remove B table t, q) refl
    | inr q ↦ rw (get-remove B table t, q) refl
  ]

  -- An entry that a flush passes over holds no batches.
  passed_over :
      (entry : BufferedInsert e)
      → Plain entry
      → (entry.row_count == 0 || is_empty entry.batches) ≡ true
      → entry.batches ≡ []
  passed_over entry h q = ground (arith, h.1, q)

  module _ (s : Sound e) (C : HashMap TableMeta) (r : Bool) where
    open s use {Content, content, put}

    -- `L` is what is buffered; with the rows that are stored it makes `g`.
    pub record Rows (L : Logged e.ipc) (g : String → Content) (d : Db e) : Type 0 where
      pub held : (t : String) → buffered d.write_buffer t ≡ L t
      pub stored : (t : String) → put (content d.world t) none (L t) ≡ g t
      pub plain :
          (t : String) (entry : BufferedInsert e) → get d.write_buffer t ≡ some entry → Plain entry
      pub mode : d.replaying_wal ≡ r
      pub tables : (t : String) → get d.catalog.tables t ≡ none → get C t ≡ none

    removed-Rows :
        (L : Logged e.ipc) (g : String → Content) (table : String) (d : Db e)
        → L table ≡ []
        → Rows L g d
        → Rows (cleared e.ipc table L) g (record d { write_buffer = remove d.write_buffer table })
    removed-Rows L g table d empty h =
        let same = cleared_same e.ipc L table empty in
        record {
          held = λ t.
              buffered-remove d.write_buffer table t
              ∙ ap (λ b. if str_eq table t then [] else b) (h.held t);
          stored = λ t. ap (put (content d.world t) none) (same t) ∙ h.stored t;
          plain =
              λ t entry q. h.plain t entry (ground (arith, get-remove d.write_buffer table t, q));
          mode = h.mode;
          tables = h.tables;
        }

    Stage-Rows :
        (L : Logged e.ipc) (g : String → Content) (table : String) (entry : BufferedInsert e)
        (d d1 : Db e)
        → Rows L g d
        → Plain entry
        → L table ≡ entry.batches
        → Stage s
            (remove d.write_buffer table)
            (written s table entry.columns entry.batches (content d.world))
            r
            C
            d1
        → Rows (cleared e.ipc table L) g d1
    Stage-Rows L g table entry d d1 h p at k = record {
      held = λ t.
          ap (λ B. buffered B t) k.buffer
          ∙ buffered-remove d.write_buffer table t
          ∙ ap (λ b. if str_eq table t then [] else b) (h.held t);
      stored = λ t. elim (Bool-cases (str_eq table t)) [
        | inl q ↦
            let same : table ≡ t = (str_eq_iff table t).0 q in
            rw (k.rows t, q, p.0)
              (s.put-append (content d.world t) none entry.batches []
                ∙ ap (put (content d.world t) none) (append-nil entry.batches ∙ sym at ∙ ap L same)
                ∙ h.stored t)
        | inr q ↦ rw (k.rows t, q) (h.stored t)
      ];
      plain = λ t entry q.
          h.plain t entry (
            ground
              (arith, get-remove d.write_buffer table t, ap (λ B. get B t) (sym k.buffer) ∙ q));
      mode = k.mode;
      tables = k.tables;
    }

    -- A flush that returns Ok moves the rows of the table from the buffer to the table.
    pub flush_table-Rows :
        (L : Logged e.ipc) (g : String → Content) (f : Faults) (table : String) (d : Db e)
        → Rows L g d
        → Ends (Rows (cleared e.ipc table L) g) (flush_table e f table d)
    unfolding flush_table
    flush_table-Rows L g f table d h = taken (get d.write_buffer table) refl
      where
        rest : Db e
        rest = record d { write_buffer = remove d.write_buffer table }

        unchanged : L table ≡ [] → Rows (cleared e.ipc table L) g d
        unchanged empty =
            let same = cleared_same e.ipc L table empty in
            record {
              held = λ t. h.held t ∙ sym (same t);
              stored = λ t. ap (put (content d.world t) none) (same t) ∙ h.stored t;
              plain = h.plain;
              mode = h.mode;
              tables = h.tables;
            }

        rows_written :
            (entry : BufferedInsert e) (b : Bool)
            → get d.write_buffer table ≡ some entry
            → (entry.row_count == 0 || is_empty entry.batches) ≡ b
            → Ends
                (Rows (cleared e.ipc table L) g)
                (if b then done 0 rest else write_rows e f table entry rest)
        rows_written entry true q z =
            removed-Rows L g table d
              (sym (h.held table) ∙ ap batches_in q ∙ passed_over entry (h.plain table entry q) z) h
        rows_written entry false q z =
            Ends-map
              (Stage s rest.write_buffer
                (written s table entry.columns entry.batches (content d.world)) r C)
              (Rows (cleared e.ipc table L) g) (write_rows e f table entry rest)
              (λ d1.
                Stage-Rows L g table entry d d1 h (h.plain table entry q)
                  (sym (h.held table) ∙ ap batches_in q))
              (write_rows-Stage s rest.write_buffer r C (content d.world) f table entry rest
                (record { buffer = refl; rows = λ t. refl; mode = h.mode; tables = h.tables }))

        taken :
            (o : Option (BufferedInsert e))
            → get d.write_buffer table ≡ o
            → Ends {A = ℕ} (Rows (cleared e.ipc table L) g) (elim o [
              | none ↦ done 0 d
              | some entry ↦
                  (if entry.row_count == 0 || is_empty entry.batches
                    then done 0 rest
                    else write_rows e f table entry rest)
            ])
        taken none q = unchanged (sym (h.held table) ∙ ap batches_in q)
        taken (some entry) q =
            rows_written entry (entry.row_count == 0 || is_empty entry.batches) q refl

  -- What a flush leaves in the Arrow log: what stays buffered.
  pub flush_table-Log :
      (L : Logged e.ipc) (hi : ℕ) (f : Faults) (table : String) (d : Db e)
      → ((entry : BufferedInsert e) → get d.write_buffer table ≡ some entry → Plain entry)
      → buffered d.write_buffer table ≡ L table
      → Log L hi d
      → Ends (Log (cleared e.ipc table L) hi) (flush_table e f table d)
  unfolding flush_table
  flush_table-Log L hi f table d plain held h = taken (get d.write_buffer table) refl
    where
      rest : Db e
      rest = record d { write_buffer = remove d.write_buffer table }

      unchanged : L table ≡ [] → Keeps e.ipc (cleared e.ipc table L) hi h.0
      unchanged empty = (
        Holds-ext e.ipc h.0.dir hi L (cleared e.ipc table L) (cleared_same e.ipc L table empty)
            h.2.0,
        h.2.1,
      )

      taken :
          (o : Option (BufferedInsert e))
          → get d.write_buffer table ≡ o
          → Ends {A = ℕ} (Log (cleared e.ipc table L) hi) (elim o [
            | none ↦ done 0 d
            | some entry ↦
                (if entry.row_count == 0 || is_empty entry.batches
                  then done 0 rest
                  else write_rows e f table entry rest)
          ])
      taken none q = (h.0, h.1, unchanged (sym held ∙ ap batches_in q))
      taken (some entry) q = elim (Bool-cases (entry.row_count == 0 || is_empty entry.batches)) [
        | inl z ↦
            rw z (
              h.0,
              h.1,
              unchanged (sym held ∙ ap batches_in q ∙ passed_over entry (plain entry q) z),
            )
        | inr z ↦ rw z (write_rows-Log L hi f table entry rest h)
      ]
