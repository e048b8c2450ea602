-- ===== src/Arrow/Session.antt =====
-- Any sequence of appends, checkpoints and reopenings, and what is recovered after it.
use potatodb.Prelude.{
  ℕ, ◌+◌, ◌≤◌, ◌<◌, ◌≡◌, refl, sym, subst, String, true, Option, none, some, List, [], ◌∷◌, arith,
}
use potatodb.Prelude.HashMap.{HashMap, get}
use potatodb.Arrow.Log.{
  Ipc, ArrowWal, ArrowWalSyncPolicy, Faults, Outcome, ◌>>=◌, append, recover, checkpoint_table,
  checkpoint_all, open_with_config,
}
use potatodb.Arrow.Holds.{
  Then, Then-bind, Logged, added, cleared, Holds, Keeps, batches_of, recover-batches,
}
use potatodb.Arrow.Keeps.{append-Appended}
use potatodb.Arrow.Reopen.{checkpoint_table-Keeps, checkpoint_all-Keeps, nothing, open-Holds}

-- An operation, how far its file operations get, and the time.
pub data Op (ipc : Ipc) : Type 0 where
  append_op : Faults → ℕ → String → List ipc.Batch → Op ipc
  checkpoint_op : Faults → String → Op ipc
  checkpoint_all_op : Faults → Op ipc
  reopen_op : Faults → ArrowWalSyncPolicy → ℕ → Op ipc

abbrev pub or_err : ArrowWal → Option ArrowWal → Outcome
or_err w none = Outcome.err w
or_err w (some w1) = Outcome.ok w1

abbrev pub new_log : ArrowWal
new_log = record {
  dir = [];
  seq = 0;
  known_dirs = [];
  sync_policy = ArrowWalSyncPolicy.always;
  appends_since_sync = 0;
  last_sync_at = 0;
}

module _ (ipc : Ipc) where
  unfoldable pub perform : Op ipc → ArrowWal → Outcome
  unfolding append checkpoint_table checkpoint_all open_with_config
  perform (append_op f now table batches) w = append ipc f now table batches w
  perform (checkpoint_op f table) w = checkpoint_table f table w
  perform (checkpoint_all_op f) w = checkpoint_all f w
  perform (reopen_op f sync_policy now) w = or_err w (open_with_config f sync_policy now w.dir)

  -- The first error ends the session.
  unfoldable pub run : List (Op ipc) → ArrowWal → Outcome
  unfolding perform
  run [] w = Outcome.ok w
  run (op ∷ ops) w = perform op w >>= run ops

  -- What is logged for each table.
  abbrev pub logs : Op ipc → Logged ipc → Logged ipc
  logs (append_op f now table batches) log = added ipc table batches log
  logs (checkpoint_op f table) log = cleared ipc table log
  logs (checkpoint_all_op f) log = nothing ipc
  logs (reopen_op f sync_policy now) log = log

  abbrev pub logged : List (Op ipc) → Logged ipc → Logged ipc
  logged [] log = log
  logged (op ∷ ops) log = logged ops (logs op log)

  -- How many files are written at most, and that reopening can read every directory.
  abbrev pub files_written : List (Op ipc) → ℕ
  files_written [] = 0
  files_written (append_op f now table batches ∷ ops) = files_written ops + 1
  files_written (op ∷ ops) = files_written ops

  abbrev pub Readable : List (Op ipc) → Type 0
  Readable [] = Unit
  Readable (reopen_op f sync_policy now ∷ ops) = ((t : String) → f.readable t ≡ true) × Readable ops
  Readable (op ∷ ops) = Readable ops

  -- The log holds what is logged, and has numbers left for `room` files.
  abbrev Fits : Logged ipc → ℕ → ArrowWal → Type 0
  Fits log room w = Holds ipc w.dir w.seq log × (w.seq + room < 1000000)

  kept :
      (log : Logged ipc) (hi room : ℕ) (m : Outcome)
      → hi + room < 1000000
      → Then (Keeps ipc log hi) m
      → Then (Fits log room) m
  kept log hi room (Outcome.ok w) lt (h, s) =
      (subst (λ n. Holds ipc w.dir n log) (sym s) h, omega (arith, s))
  kept log hi room (Outcome.err w) lt h = tt

  perform-Fits :
      (op : Op ipc) (ops : List (Op ipc)) (w : ArrowWal) (log : Logged ipc)
      → Readable (op ∷ ops)
      → Fits log (files_written (op ∷ ops)) w
      → Then (Fits (logs op log) (files_written ops)) (perform op w)
  unfolding perform
  perform-Fits (append_op f now table batches) ops w log r (h, lt) =
      more (append ipc f now table batches w)
        (append-Appended ipc f now table batches w log h (omega arith))
    where
      more :
          (m : Outcome)
          → Then (λ x. Holds ipc x.dir x.seq (added ipc table batches log) × (x.seq ≤ w.seq + 1)) m
          → Then (Fits (added ipc table batches log) (files_written ops)) m
      more (Outcome.ok x) (k, le) = (k, omega arith)
      more (Outcome.err x) k = tt
  perform-Fits (checkpoint_op f table) ops w log r (h, lt) =
      kept (cleared ipc table log) w.seq (files_written ops) _ lt
        (checkpoint_table-Keeps ipc f table w log w.seq (h, refl))
  perform-Fits (checkpoint_all_op f) ops w log r (h, lt) =
      kept (nothing ipc) w.seq (files_written ops) _ lt (checkpoint_all-Keeps ipc f w)
  perform-Fits (reopen_op f sync_policy now) ops w log r (h, lt) =
      opened (open_with_config f sync_policy now w.dir) refl
    where
      opened :
          (o : Option ArrowWal)
          → open_with_config f sync_policy now w.dir ≡ o
          → Then (Fits log (files_written ops)) (or_err w o)
      opened none e = tt
      opened (some w1) e =
          let (k, le) = open-Holds ipc f sync_policy now w.dir w.seq log w1 r.0 (omega arith) h e in
          (k, omega arith)

  tail_Readable : (op : Op ipc) (ops : List (Op ipc)) → Readable (op ∷ ops) → Readable ops
  tail_Readable (append_op f now table batches) ops r = r
  tail_Readable (checkpoint_op f table) ops r = r
  tail_Readable (checkpoint_all_op f) ops r = r
  tail_Readable (reopen_op f sync_policy now) ops r = r.1

  run-Fits :
      (ops : List (Op ipc)) (w : ArrowWal) (log : Logged ipc)
      → Readable ops
      → Fits log (files_written ops) w
      → Then (Fits (logged ops log) 0) (run ops w)
  unfolding run
  run-Fits [] w log r h = h
  run-Fits (op ∷ ops) w log r h =
      Then-bind (Fits (logs op log) (files_written ops)) (Fits (logged ops (logs op log)) 0)
        (perform op w) (run ops) (perform-Fits op ops w log r h)
        λ w1 k. run-Fits ops w1 (logs op log) (tail_Readable op ops r) k

-- Appends to any tables, checkpoints and reopenings of an Arrow log that is new, as long as each
-- returns Ok, every directory can be read on reopening, and fewer than a million files are written:
-- recovery succeeds, and finds for every table exactly the batches that were appended since its
-- last checkpoint, in order.
pub recover-run :
    (ipc : Ipc) (ops : List (Op ipc)) (w : ArrowWal)
    → Readable ipc ops
    → files_written ipc ops < 1000000
    → run ipc ops (new_log) ≡ Outcome.ok w
    → (m : HashMap (List ipc.Batch)) × (recover ipc w.dir ≡ some m)
      × ((t : String) → batches_of ipc (get m t) ≡ logged ipc ops (nothing ipc) t)
recover-run ipc ops w r lt e =
    let start : Holds ipc [] 0 (nothing ipc) = record {
      entries = tt;
      absent = λ t g. refl;
      unique = tt;
    } in
    let (h, fits) : Fits ipc (logged ipc ops (nothing ipc)) 0 w =
      subst (Then (Fits ipc (logged ipc ops (nothing ipc)) 0)) e
        (run-Fits ipc ops new_log (nothing ipc) r (start, omega arith)) in
    let (m, found, distinct, same) =
      recover-batches ipc w.dir w.seq (logged ipc ops (nothing ipc)) (omega arith) h in
    (m, found, same)
