-- ===== src/Buffer/Statements.antt =====
-- Statements one after another, and what a query finds.
use potatodb.Prelude.{
  ℕ, ◌+◌, ◌<◌, ◌≡◌, refl, sym, ap, ◌∙◌, subst, String, Bool, true, false, none, some, List, [], ◌∷◌,
  map, filter, is_empty, if◌then◌else◌, str_eq, str_eq_iff, Bool-cases, inl, inr, arith,
}
use potatodb.Prelude.HashMap.{HashMap, get}
use potatodb.Catalog.Types.{TableMeta}
use potatodb.Arrow.Log.{Faults}
use potatodb.Arrow.Holds.{Logged, cleared}
use potatodb.Arrow.Reopen.{nothing}
use potatodb.Arrow.Session.{new_log}
use potatodb.Buffer.State.{Env, BufferedInsert, Db, Reply, done, ◌>>=◌}
use potatodb.Buffer.Flush.{
  flush_table, flush_tables, flush_all, flush_buffered_for_sql, buffered_tables,
}
use potatodb.Buffer.Insert.{Moment, buffer_insert_batches}
use potatodb.Buffer.Sound.{Sound, Ends, Ends-bind, batches_in}
use potatodb.Buffer.Stage.{written}
use potatodb.Buffer.Rows.{Ends-map, Rows}
use potatodb.Buffer.Buffered.{Both, flush_table-Both}
use potatodb.Buffer.Inserted.{After, buffer_insert_batches-After}

-- An insert without a list of columns, a flush of a table, and a query, which flushes the tables
-- that it mentions.
pub data Statement (e : Env) : Type 0 where
  insert_into : Moment → String → List e.ipc.Batch → Statement e
  flush : Faults → String → Statement e
  query : Faults → (String → Bool) → Statement e

abbrev listed : List String → String → Bool
listed [] t = false
listed (x ∷ xs) t = let rest = listed xs t in if str_eq x t then true else rest

listed-filter :
    (p : String → Bool) (ts : List String) (t : String)
    → p t ≡ true
    → listed (filter p ts) t ≡ listed ts t
listed-filter p [] t h = refl
listed-filter p (x ∷ ts) t h = ground (arith, listed-filter p ts t h, str_eq_iff x t, h)

module _ {e : Env} where
  listed-get :
      (B : HashMap (BufferedInsert e)) (t : String)
      → listed (map (λ (entry : String × BufferedInsert e). entry.0) B) t ≡ false
      → get B t ≡ none
  unfolding get
  listed-get [] t h = refl
  listed-get ((x, entry) ∷ B) t h = ground (arith, listed-get B t (ground (arith, h)), h)

  get-none : (B : HashMap (BufferedInsert e)) (t : String) → is_empty B ≡ true → get B t ≡ none
  unfolding get
  get-none [] t h = refl
  get-none (x ∷ B) t h = cc

  unfoldable pub execute : Statement e → Db e → Reply e (Unit {0})
  unfolding buffer_insert_batches flush_table flush_buffered_for_sql
  execute (insert_into m table batches) d =
      buffer_insert_batches e m table none batches d >>= λ _ d1. done tt d1
  execute (flush f table) d = flush_table e f table d >>= λ _ d1. done tt d1
  execute (query f mentions) d = flush_buffered_for_sql e f mentions d >>= λ _ d1. done tt d1

  -- The first error ends the run.
  unfoldable pub execute_all : List (Statement e) → Db e → Reply e (Unit {0})
  unfolding execute
  execute_all [] d = done tt d
  execute_all (x ∷ xs) d = execute x d >>= λ _ d1. execute_all xs d1

  -- How many statements are inserts.
  abbrev pub inserts : List (Statement e) → ℕ
  inserts [] = 0
  inserts (insert_into m table batches ∷ xs) = inserts xs + 1
  inserts (x ∷ xs) = inserts xs

  -- The engine after a start with a new Arrow log.
  abbrev pub Started : Db e → Type 0
  Started d = (d.write_buffer ≡ []) × (d.replaying_wal ≡ false) × (d.arrow_wal ≡ some new_log)

  module _ (s : Sound e) where
    open s use {Content, content, put}

    -- What every table holds when each insert puts its batches to it at once.
    abbrev pub inserted : List (Statement e) → (String → Content) → String → Content
    inserted [] g = g
    inserted (insert_into m table batches ∷ xs) g = inserted xs (written s table none batches g)
    inserted (x ∷ xs) g = inserted xs g

    abbrev cleared_all : List String → Logged e.ipc → Logged e.ipc
    cleared_all [] L = L
    cleared_all (t ∷ ts) L = cleared_all ts (cleared e.ipc t L)

    cleared_all-listed :
        (ts : List String) (L : Logged e.ipc) (t : String)
        → cleared_all ts L t ≡ (if listed ts t then [] else L t)
    cleared_all-listed [] L t = refl
    cleared_all-listed (x ∷ ts) L t = cleared_all-listed ts (cleared e.ipc x L) t ∙ ground arith

    module _ (C : HashMap TableMeta) (r : Bool) where
      flush_tables-Both :
          (L : Logged e.ipc) (g : String → Content) (room : ℕ) (f : Faults) (ts : List String)
          (d : Db e)
          → Both s C r L g room d
          → Ends (Both s C r (cleared_all ts L) g room) (flush_tables e f ts d)
      unfolding flush_tables
      flush_tables-Both L g room f [] d h = h
      flush_tables-Both L g room f (t ∷ ts) d h =
          let L1 = cleared e.ipc t L in
          let P = Both s C r (cleared_all ts L1) g room in
          Ends-bind (Both s C r L1 g room) P (flush_table e f t d) _
            (flush_table-Both s C r L g room f t d h)
            λ n d1 h1.
              Ends-bind P P (flush_tables e f ts d1) _ (flush_tables-Both L1 g room f ts d1 h1)
                λ m d2 h2. h2

      -- A query leaves nothing in the buffer for the tables that it mentions.
      abbrev pub Queried : (String → Bool) → (String → Content) → ℕ → Db e → Type 0
      Queried mentions g room d =
          (L : Logged e.ipc) × ((t : String) → mentions t ≡ true → L t ≡ []) × Both s C r L g room d

      pub flush_buffered_for_sql-Queried :
          (L : Logged e.ipc) (g : String → Content) (room : ℕ) (f : Faults)
          (mentions : String → Bool) (d : Db e)
          → Both s C r L g room d
          → Ends (Queried mentions g room) (flush_buffered_for_sql e f mentions d)
      unfolding flush_buffered_for_sql
      flush_buffered_for_sql-Queried L g room f mentions d h =
          elim (Bool-cases (is_empty d.write_buffer)) [
            | inl q ↦
                rw q (L, λ t z. sym (h.0.held t) ∙ ap batches_in (get-none d.write_buffer t q), h)
            | inr q ↦ rw q (elim (Bool-cases (is_empty (filter mentions (buffered_tables e d)))) [
              | inl z ↦ rw (z, flush_all) (settled (buffered_tables e d) λ t m. refl)
              | inr z ↦ rw z (
                  settled (filter mentions (buffered_tables e d))
                    (listed-filter mentions (buffered_tables e d)))
            ])
          ]
        where
          settled :
              (ts : List String)
              → ((t : String) → mentions t ≡ true → listed ts t ≡ listed (buffered_tables e d) t)
              → Ends (Queried mentions g room) (flush_tables e f ts d)
          settled ts all =
              Ends-map (Both s C r (cleared_all ts L) g room) (Queried mentions g room)
                (flush_tables e f ts d)
                (λ d1 h1.
                  (cleared_all ts L, λ t q. cleared_all-listed ts L t ∙ left ts all t q, h1))
                (flush_tables-Both L g room f ts d h)
            where
              left :
                  (ts : List String)
                  → ((t : String)
                      → mentions t ≡ true
                      → listed ts t ≡ listed (buffered_tables e d) t)
                  → (t : String) → mentions t ≡ true
                  → (if listed ts t then [] else L t) ≡ []
              left ts all t q = elim (Bool-cases (listed ts t)) [
                | inl z ↦ rw z refl
                | inr z ↦ rw z (
                    sym (h.0.held t)
                    ∙ ap batches_in (listed-get d.write_buffer t (sym (all t q) ∙ z)))
              ]

      -- The run of one statement, which is followed by others.
      execute-Both :
          (x : Statement e) (xs : List (Statement e)) (L : Logged e.ipc) (g : String → Content)
          (d : Db e)
          → Both s C r L g (inserts (x ∷ xs)) d
          → Ends
              (λ d1.
                (L1 : Logged e.ipc) × (g1 : String → Content) × (inserted xs g1
                  ≡ inserted (x ∷ xs) g)
                × Both s C r L1 g1 (inserts xs) d1)
              (execute x d)
      unfolding execute
      execute-Both (insert_into m table batches) xs L g d h =
          Ends-bind (After s C r L (written s table none batches g) (inserts xs) table) _
            (buffer_insert_batches e m table none batches d) _
            (buffer_insert_batches-After s C r L g (inserts xs) m table batches d h)
            λ u d1 (L1, others, k). (L1, written s table none batches g, refl, k)
      execute-Both (flush f table) xs L g d h =
          Ends-bind (Both s C r (cleared e.ipc table L) g (inserts xs)) _ (flush_table e f table d)
            _ (flush_table-Both s C r L g (inserts xs) f table d h)
            λ u d1 k. (cleared e.ipc table L, g, refl, k)
      execute-Both (query f mentions) xs L g d h =
          Ends-bind (Queried mentions g (inserts xs)) _ (flush_buffered_for_sql e f mentions d) _
            (flush_buffered_for_sql-Queried L g (inserts xs) f mentions d h)
            λ u d1 (L1, mentioned, k). (L1, g, refl, k)

      pub execute_all-Both :
          (xs : List (Statement e)) (L : Logged e.ipc) (g : String → Content) (d : Db e)
          → Both s C r L g (inserts xs) d
          → Ends (λ d1. (L1 : Logged e.ipc) × Both s C r L1 (inserted xs g) 0 d1) (execute_all xs d)
      unfolding execute_all
      execute_all-Both [] L g d h = (L, h)
      execute_all-Both (x ∷ xs) L g d h =
          Ends-bind _ _ (execute x d) (λ u d1. execute_all xs d1) (execute-Both x xs L g d h)
            λ u d1 (L1, g1, same, k).
              subst
                (λ g2. Ends (λ d2. (L2 : Logged e.ipc) × Both s C r L2 g2 0 d2) (execute_all xs d1))
                same (execute_all-Both xs L1 g1 d1 k)

    -- With an empty buffer the tables hold all rows.
    pub empty-Rows :
        (r : Bool) (d : Db e)
        → d.write_buffer ≡ []
        → d.replaying_wal ≡ r
        → Rows s d.catalog.tables r (nothing e.ipc) (content d.world) d
    empty-Rows r d empty mode =
        let none_at : (t : String) → get d.write_buffer t ≡ none =
          λ t. get-none d.write_buffer t (ap is_empty empty) in
        record {
          held = λ t. ap batches_in (none_at t);
          stored = λ t. s.put_empty (content d.world t) none [] refl;
          plain = λ t entry q. cc (none_at t, q);
          mode = mode;
          tables = λ t q. q;
        }

    pub Started-Both :
        (d : Db e) (room : ℕ)
        → Started d
        → room < 1000000
        → Both s d.catalog.tables false (nothing e.ipc) (content d.world) room d
    Started-Both d room (empty, off, at) lt = (
      empty-Rows false d empty off,
      λ z. (
        new_log,
        at,
        record { entries = tt; absent = λ t q. refl; unique = tt },
        omega (arith, lt),
      ),
    )
