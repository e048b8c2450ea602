-- ===== src/Buffer/Restart.antt =====
-- What the tables hold when a query is run, and after a crash and a restart.
use potatodb.Prelude.{
  ℕ, ◌<◌, ◌≡◌, refl, sym, ap, ◌∙◌, String, Bool, true, false, none, some, List, [], arith,
}
use potatodb.Prelude.HashMap.{get}
use potatodb.Arrow.Log.{ArrowWal, Faults, recover}
use potatodb.Arrow.Holds.{Logged, batches_of, recover-batches}
use potatodb.Arrow.Reopen.{nothing}
use potatodb.Buffer.State.{Env, Db, done, total}
use potatodb.Buffer.Flush.{flush_buffered_for_sql}
use potatodb.Buffer.Insert.{Moment}
use potatodb.Buffer.Recover.{replay_recovered, recover_arrow}
use potatodb.Buffer.Sound.{Sound, Ends-done, buffered}
use potatodb.Buffer.Buffered.{Both}
use potatodb.Buffer.Statements.{
  Statement, execute_all, inserts, Started, inserted, Queried, flush_buffered_for_sql-Queried,
  execute_all-Both, Started-Both,
}
use potatodb.Buffer.Replay.{replay_recovered-stored}

module _ {e : Env} (s : Sound e) where
  open s use {content}

  -- What a run of statements leaves.
  run_lem :
      (xs : List (Statement e)) (d d1 : Db e)
      → Started d
      → inserts xs < 1000000
      → execute_all xs d ≡ done tt d1
      → (L : Logged e.ipc) × Both s d.catalog.tables false L (inserted s xs (content d.world)) 0 d1
  run_lem xs d d1 start lt run =
      Ends-done
        (λ d1.
          (L : Logged e.ipc) × Both s d.catalog.tables false L (inserted s xs (content d.world)) 0
            d1)
        (execute_all xs d) tt d1
        (execute_all-Both s d.catalog.tables false xs (nothing e.ipc) (content d.world) d
          (Started-Both s d (inserts xs) start lt))
        run

-- Let inserts without a list of columns, flushes and queries return Ok, from a start with an empty
-- buffer and a new Arrow log, with fewer than a million inserts. When the flush before a query then
-- returns Ok, every table that the query mentions holds the batches of all its inserts.
pub flush_buffered_for_sql-inserted :
    {e : Env} (s : Sound e) (xs : List (Statement e)) (d d1 d2 : Db e) (f : Faults)
    (mentions : String → Bool) (n : ℕ) (t : String)
    → Started d
    → inserts xs < 1000000
    → execute_all xs d ≡ done tt d1
    → flush_buffered_for_sql e f mentions d1 ≡ done n d2
    → mentions t ≡ true
    → s.content d2.world t ≡ inserted s xs (s.content d.world) t
flush_buffered_for_sql-inserted {e} s xs d d1 d2 f mentions n t start lt run flushed mentioned =
    let g = inserted s xs (s.content d.world) in
    let (L, h) = run_lem s xs d d1 start lt run in
    let (L1, none_left, (k, log)) =
      Ends-done (Queried s d.catalog.tables false mentions g 0)
        (flush_buffered_for_sql e f mentions d1) n d2
        (flush_buffered_for_sql-Queried s d.catalog.tables false L g 0 f mentions d1 h) flushed in
    sym (
      s.put_empty (s.content d2.world t) none (L1 t)
        (ap (total e.num_rows) (none_left t mentioned)))
    ∙ k.stored t

-- Let inserts without a list of columns, flushes and queries return Ok, from a start with an empty
-- buffer and a new Arrow log, with fewer than a million inserts, and let the process then stop, so
-- that the tables and the directory of the log are what is left. After a start whose recovery
-- returns Ok, and whose catalog has the tables with buffered rows, every table holds the batches of
-- all its inserts: none is lost, and none is there twice.
pub recover_arrow-inserted :
    {e : Env} (s : Sound e) (xs : List (Statement e)) (d d1 d2 d3 : Db e) (w : ArrowWal)
    (m : Moment)
    → Started d
    → inserts xs < 1000000
    → execute_all xs d ≡ done tt d1
    → d1.arrow_wal ≡ some w
    → d2.write_buffer ≡ []
    → ((t : String) → s.content d2.world t ≡ s.content d1.world t)
    → ((t : String) → get d2.catalog.tables t ≡ none → buffered d1.write_buffer t ≡ [])
    → recover_arrow e m w.dir d2 ≡ done tt d3
    → (t : String) → s.content d3.world t ≡ inserted s xs (s.content d.world) t
unfolding recover_arrow
recover_arrow-inserted {e} s xs d d1 d2 d3 w m start lt run at empty same known recovered t =
    let (L, (h, k)) = run_lem s xs d d1 start lt run in
    let (v, at1, holds, room) = k refl in
    let log : w ≡ v = ground (arith, at, at1) in
    let (rs, found, distinct, batches) =
      recover-batches e.ipc v.dir v.seq L (omega (arith, room)) holds in
    let found_w : recover e.ipc w.dir ≡ some rs = ap (λ x. recover e.ipc x.dir) log ∙ found in
    let stored =
      Ends-done
        (λ d4.
          (u : String)
          → s.content d4.world u ≡ s.put (s.content d2.world u) none (batches_of e.ipc (get rs u)))
        (replay_recovered e m d2 (some rs)) tt d3
        (replay_recovered-stored s m rs d2 empty distinct
          λ u q. batches u ∙ sym (h.held u) ∙ known u q)
        (ap (replay_recovered e m d2) (sym found_w) ∙ recovered) in
    stored t
    ∙ ap (λ c. s.put c none (batches_of e.ipc (get rs t))) (same t)
    ∙ ap (s.put (s.content d1.world t) none) (batches t)
    ∙ h.stored t
