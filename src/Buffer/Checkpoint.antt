-- ===== src/Buffer/Checkpoint.antt =====
-- CHECKPOINT and the rows that are still buffered: `handle_checkpoint`, after the flush that
-- `execute_query_inner` makes for the statement's text.
use potatodb.Prelude.{
  ◌≡◌, refl, ap, ◌∙◌, String, Bool, true, false, Option, none, some, List, [], ◌∷◌, filter,
  is_empty, subst, All, if◌then◌else◌, str_eq, str_eq_iff, Bool-cases, Option-cases, inl, inr,
  arith,
}
use potatodb.Prelude.HashMap.{get}
use potatodb.Arrow.Log.{
  Disk, ArrowWal, Faults, Outcome, checkpoint_all, remove_dirs, removed, recover,
}
use potatodb.Buffer.State.{Env, BufferedInsert, Db, Reply, done, ◌>>=◌}
use potatodb.Buffer.Flush.{
  on_arrow, flush_table, flush_tables, flush_buffered_for_sql, buffered_tables,
}
use potatodb.Buffer.Insert.{Moment}
use potatodb.Buffer.Recover.{replay_recovered, recover_arrow}
use potatodb.Buffer.Sound.{Ends, Ends-bind, Ends-done}
use potatodb.Buffer.Rows.{Ends-both}
use potatodb.Buffer.Taken.{Leaves, Leaves-Ends, flush_table-Leaves}

module _ (e : Env) where
  -- What `handle_checkpoint` does with the Arrow log.
  unfoldable pub checkpoint_arrow : Faults → Db e → Reply e (Unit {0})
  unfolding checkpoint_all
  checkpoint_arrow f d = elim d.arrow_wal [
    | none ↦ done tt d
    | some w ↦ on_arrow e d (checkpoint_all f w)
  ]

  -- The statement, with the flush before it.
  unfoldable pub checkpoint_statement : Faults → (String → Bool) → Db e → Reply e (Unit {0})
  unfolding flush_buffered_for_sql checkpoint_arrow
  checkpoint_statement f mentions d =
      flush_buffered_for_sql e f mentions d >>= λ _ d1. checkpoint_arrow f d1

remove_dirs_all :
    (f : Faults) (dir : Disk) → (remove_dirs f dir).1 ≡ true → (remove_dirs f dir).0 ≡ []
unfolding remove_dirs
remove_dirs_all f [] q = refl
remove_dirs_all f ((table, files) ∷ dir) q = elim (Option-cases (f.left table)) [
  | inl z ↦ rw (z, remove_dirs) (remove_dirs_all f dir (rw (z, remove_dirs) at q))
  | inr (rest, z) ↦ cc (rw (z, remove_dirs) at q)
]

module _ {e : Env} where
  -- The Arrow log, where there is one, has no directories left.
  abbrev Cleared : Db e → Type 0
  Cleared d = (w : ArrowWal) → d.arrow_wal ≡ some w → w.dir ≡ []

  checkpoint_arrow-Cleared : (f : Faults) (d : Db e) → Ends Cleared (checkpoint_arrow e f d)
  unfolding checkpoint_arrow checkpoint_all
  checkpoint_arrow-Cleared f d = opened d.arrow_wal refl
    where
      dropped :
          (o : Disk × Bool)
          → ((o.1 ≡ true) → o.0 ≡ [])
          → (w : ArrowWal) → Ends Cleared (on_arrow e d (removed w o))
      dropped (dir, true) none_left w = λ v q. ground (arith, none_left refl, q)
      dropped (dir, false) none_left w = tt

      opened :
          (o : Option ArrowWal)
          → d.arrow_wal ≡ o
          → Ends {A = Unit {0}} Cleared (elim o [
            | none ↦ done tt d
            | some w ↦ on_arrow e d (removed w (remove_dirs f w.dir))
          ])
      opened none q = λ w z. cc
      opened (some w) q = dropped (remove_dirs f w.dir) (remove_dirs_all f w.dir) w

  checkpoint_arrow-buffer :
      (B : Option (BufferedInsert e)) (f : Faults) (t : String) (d : Db e)
      → get d.write_buffer t ≡ B
      → Ends (λ x. get x.write_buffer t ≡ B) (checkpoint_arrow e f d)
  unfolding checkpoint_arrow
  checkpoint_arrow-buffer B f t d h = opened d.arrow_wal
    where
      dropped : (o : Outcome) → Ends (λ x. get x.write_buffer t ≡ B) (on_arrow e d o)
      dropped (Outcome.ok w) = h
      dropped (Outcome.err w) = tt

      opened :
          (o : Option ArrowWal)
          → Ends {A = Unit {0}}
              (λ x. get x.write_buffer t ≡ B)
              (elim o [ none ↦ done tt d | some w ↦ on_arrow e d (checkpoint_all f w) ])
      opened none = h
      opened (some w) = dropped (checkpoint_all f w)

  -- Flushing tables that the statement mentions leaves a table that it does not mention.
  flush_tables-buffer :
      (B : Option (BufferedInsert e)) (f : Faults) (mentions : String → Bool) (t : String)
      (ts : List String) (d : Db e)
      → mentions t ≡ false
      → All (λ x. mentions x ≡ true) ts
      → get d.write_buffer t ≡ B
      → Ends (λ x. get x.write_buffer t ≡ B) (flush_tables e f ts d)
  unfolding flush_tables
  flush_tables-buffer B f mentions t [] d absent all h = h
  flush_tables-buffer B f mentions t (x ∷ ts) d absent all h =
      let P : Db e → Type 0 = λ y. get y.write_buffer t ≡ B in
      let other : str_eq x t ≡ false = ground (arith, str_eq_iff x t, ap mentions, absent, all.0) in
      Ends-bind P P (flush_table e f x d) _
        (Leaves-Ends P (flush_table e f x d) (
          subst (λ C. Leaves (λ y. get y.write_buffer t ≡ C) (flush_table e f x d))
            (ap (λ b. if b then none else get d.write_buffer t) other ∙ h)
            (flush_table-Leaves f x t d)))
        λ n d1 h1.
          Ends-bind P P (flush_tables e f ts d1) _
            (flush_tables-buffer B f mentions t ts d1 absent all.1 h1) λ k d2 h2. h2

mentioned-filter : (p : String → Bool) (ts : List String) → All (λ x. p x ≡ true) (filter p ts)
mentioned-filter p [] = tt
mentioned-filter p (x ∷ ts) = ground (arith, mentioned-filter p ts)

-- Where the statement's text contains the name of a table that has buffered rows, CHECKPOINT leaves
-- the rows of every table whose name it does not contain in the buffer, and still removes their log:
-- a recovery from the directory that is left finds no row to replay.
pub checkpoint_statement-lost :
    {e : Env} (f : Faults) (mentions : String → Bool) (d d1 d2 : Db e) (t : String) (w : ArrowWal)
    (m : Moment)
    → is_empty (filter mentions (buffered_tables e d)) ≡ false
    → mentions t ≡ false
    → checkpoint_statement e f mentions d ≡ done tt d1
    → d1.arrow_wal ≡ some w
    → (get d1.write_buffer t ≡ get d.write_buffer t) × (recover_arrow e m w.dir d2 ≡ done tt d2)
unfolding checkpoint_statement recover_arrow flush_buffered_for_sql recover
checkpoint_statement-lost {e} f mentions d d1 d2 t w m some_table absent run at =
    let B = get d.write_buffer t in
    let ts = filter mentions (buffered_tables e d) in
    let flushed : Ends (λ x. get x.write_buffer t ≡ B) (flush_buffered_for_sql e f mentions d) =
      elim (Bool-cases (is_empty d.write_buffer)) [
        | inl q ↦ rw q refl
        | inr q ↦
            rw (q, some_table)
              (flush_tables-buffer B f mentions t ts d absent
                (mentioned-filter mentions (buffered_tables e d)) refl)
      ] in
    let (gone, kept) =
      Ends-done (λ x. Cleared x × (get x.write_buffer t ≡ B)) (checkpoint_statement e f mentions d)
        tt d1
        (Ends-bind (λ x. get x.write_buffer t ≡ B) (λ x. Cleared x × (get x.write_buffer t ≡ B))
          (flush_buffered_for_sql e f mentions d) _ flushed
          λ n x h.
            Ends-both Cleared (λ y. get y.write_buffer t ≡ B) (checkpoint_arrow e f x)
              (checkpoint_arrow-Cleared f x) (checkpoint_arrow-buffer B f t x h))
        run in
    (kept, ap (λ dir. replay_recovered e m d2 (recover e.ipc dir)) (gone w at))
