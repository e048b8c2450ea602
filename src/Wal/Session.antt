-- ===== src/Wal/Session.antt =====
-- Runs of the journal: entries, commit and abort markers appended to an opened log, any of which
-- may fail half way, and the recovery after a crash.
use potatodb.Prelude.{ℕ, ◌≡◌, refl, sym, ap, ◌∙◌, inl, arith}
use potatodb.Prelude.{some, List, [], ◌∷◌, ◌++◌, append-nil, append_assoc, length}
use potatodb.Prelude.{subst, All}
use potatodb.Wal.Crc.{Hasher}
use potatodb.Wal.Entry.{WalEntry, IsValid, committed, aborted}
use potatodb.Wal.File.{
  Device, Wal, Io, ok, err, ◌>>=◌, flush, sync_data, write_entry, open_wal, append_no_sync, append,
  commit_no_checkpoint, commit, abort,
}
use potatodb.Wal.Log
use potatodb.Wal.Log.{recover, replay}
use potatodb.Wal.Torn.{whole, encode_log}
use potatodb.Wal.Crash.{whole_all, length-encode_log}
use potatodb.Wal.Writer.{after}
use potatodb.Wal.Journal.{
  Holds, Holds-Front, Front, append_no_sync-Holds, append-Holds, append_no_sync-Front, append-Front,
  append_ok, recover-Front,
}

-- What a client of the log calls.
pub data Call : Type 0 where
  journal : WalEntry → Call
  append_synced : WalEntry → Call
  commit_txn : ℕ → Call
  abort_txn : ℕ → Call

-- The entry that a call appends.
abbrev pub entry_of : Call → WalEntry
entry_of (journal e) = e
entry_of (append_synced e) = e
entry_of (commit_txn id) = record { txn_id = id; status = committed; sql = [] }
entry_of (abort_txn id) = record { txn_id = id; status = aborted; sql = [] }

module _ (crc : Hasher) where
  pub perform : Device → Call → Wal → Io (Unit {0})
  perform d (journal e) w = append_no_sync crc d e w
  perform d (append_synced e) w = append crc d e w
  perform d (commit_txn id) w = commit crc d id w
  perform d (abort_txn id) w = abort crc d id w

  -- The log after some calls, each with its device; an error does not end the run.
  unfoldable pub run : List (Device × Call) → Wal → Wal
  unfolding perform
  run [] w = w
  run ((d, c) ∷ calls) w = run calls (after (perform d c w))

  perform-Holds :
      (d : Device) (c : Call) (w w0 : Wal) (es : List WalEntry)
      → write_entry crc d (entry_of c) w ≡ ok tt w0
      → Holds crc w es
      → Holds crc (after (perform d c w)) (es ++ entry_of c ∷ [])
  unfolding perform commit commit_no_checkpoint abort
  perform-Holds d (journal e) w w0 es q h = append_no_sync-Holds crc d w w0 es e q h
  perform-Holds d (append_synced e) w w0 es q h = append-Holds crc d w w0 es e q h
  perform-Holds d (commit_txn id) w w0 es q h =
      append-Holds crc d w w0 es (entry_of (commit_txn id)) q h
  perform-Holds d (abort_txn id) w w0 es q h =
      append-Holds crc d w w0 es (entry_of (abort_txn id)) q h

  perform-Front :
      (d : Device) (c : Call) (w : Wal) (es : List WalEntry)
      → Holds crc w es
      → Front crc (after (perform d c w)) (es ++ entry_of c ∷ [])
  unfolding perform commit commit_no_checkpoint abort
  perform-Front d (journal e) w es h = append_no_sync-Front crc d w es e h
  perform-Front d (append_synced e) w es h = append-Front crc d w es e h
  perform-Front d (commit_txn id) w es h = append-Front crc d w es (entry_of (commit_txn id)) h
  perform-Front d (abort_txn id) w es h = append-Front crc d w es (entry_of (abort_txn id)) h

  -- Of all calls but the last, the entry is handed to the buffered writer.
  abbrev pub Handed : List (Device × Call) → Wal → Type 0
  Handed [] w = Unit
  Handed ((d, c) ∷ []) w = Unit
  Handed ((d, c) ∷ next ∷ calls) w =
      (w0 : Wal) × (write_entry crc d (entry_of c) w ≡ ok tt w0)
      × Handed (next ∷ calls) (after (perform d c w))

  abbrev pub written : List (Device × Call) → List WalEntry
  written [] = []
  written ((d, c) ∷ calls) = entry_of c ∷ written calls

  run-Front :
      (calls : List (Device × Call)) (w : Wal) (es : List WalEntry)
      → Handed calls w
      → Holds crc w es
      → Front crc (run calls w) (es ++ written calls)
  unfolding run
  run-Front [] w es handed h = rw append-nil (Holds-Front crc w es h)
  run-Front ((d, c) ∷ []) w es handed h = perform-Front d c w es h
  run-Front ((d, c) ∷ next ∷ calls) w es (w0, q, handed) h =
      rw (← append_assoc es (entry_of c ∷ []) (written (next ∷ calls))) (
        run-Front (next ∷ calls) (after (perform d c w)) (es ++ entry_of c ∷ []) handed
          (perform-Holds d c w w0 es q h))

  open_wal-Holds :
      (d : Device) (es : List WalEntry) (w : Wal)
      → open_wal d (some (encode_log crc es)) ≡ some w
      → Holds crc w es
  unfolding open_wal
  open_wal-Holds d es w h =
      let file : w.file ≡ encode_log crc es = ground arith in
      let buffer : w.buffer ≡ [] = ground arith in
      record {
        bytes = ap (λ t. w.file ++ t) buffer ∙ append-nil w.file ∙ file;
        at_end = inl (ground arith);
      }

  -- A log that was opened over valid entries and then written by any calls, each of which may fail
  -- in its flush or its sync after any number of bytes, and the last one also while its entry is
  -- handed to the writer: after a crash, recovery reads exactly those entries, of the old and the
  -- appended ones in order, that lie wholly in the file.
  pub run-recover :
      (d : Device) (es : List WalEntry) (w : Wal) (calls : List (Device × Call))
      → open_wal d (some (encode_log crc es)) ≡ some w
      → Handed calls w
      → All IsValid (es ++ written calls)
      → recover crc (some (run calls w).file)
        ≡ Log.ok (replay (whole (length (run calls w).file) (es ++ written calls)))
  run-recover d es w calls opened handed vs =
      recover-Front crc (run calls w) (es ++ written calls)
        (run-Front calls w es handed (open_wal-Holds d es w opened)) vs

  -- With an empty buffer the file holds all entries, and recovery reads them all.
  pub recover_flushed :
      (w : Wal) (es : List WalEntry)
      → Holds crc w es
      → w.buffer ≡ []
      → All IsValid es
      → recover crc (some w.file) ≡ Log.ok (replay es)
  recover_flushed w es h empty vs =
      let file : w.file ≡ encode_log crc es =
        sym (append-nil w.file) ∙ ap (λ t. w.file ++ t) (sym empty) ∙ h.bytes in
      recover-Front crc w es (Holds-Front crc w es h) vs
      ∙ ap (λ t. Log.ok (replay t))
          (whole_all (length w.file) es
            (omega (arith, ap length file, length-encode_log crc es vs)))

  handed_over :
      (d : Device) (w w' : Wal) (e : WalEntry) (m : Io (Unit {0}))
      → (m >>= λ _ w1. (flush d w1 >>= λ _ w2. sync_data d w2)) ≡ ok tt w'
      → (w0 : Wal) × (m ≡ ok tt w0)
  handed_over d w w' e (ok u w0) h = (w0, refl)
  handed_over d w w' e (err w0) h = cc

  -- A synced append that returned `Ok` is durable: a crash right after it loses nothing of what was
  -- appended, and recovery replays what the entries before it and the new one call for.
  pub append-recover :
      (d : Device) (w w' : Wal) (es : List WalEntry) (e : WalEntry)
      → Holds crc w es
      → All IsValid (es ++ e ∷ [])
      → append crc d e w ≡ ok tt w'
      → recover crc (some w'.file) ≡ Log.ok (replay (es ++ e ∷ []))
  unfolding append
  append-recover d w w' es e h vs done =
      let (w0, q) = handed_over d w w' e (write_entry crc d e w) done in
      recover_flushed w' (es ++ e ∷ [])
        (subst (λ m. Holds crc (after m) (es ++ e ∷ [])) done (append-Holds crc d w w0 es e q h))
        (append_ok crc d w w' e done) vs
