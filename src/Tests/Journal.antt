-- ===== src/Tests/Journal.antt =====
-- crates/wal at concrete logs.
use potatodb.Prelude.{ℕ, ◌≡◌, ◌↔◌, ◌⊎◌, inl, inr, refl, arith}
use potatodb.Prelude.{none, some, List, [], ◌∷◌, ◌++◌, append-nil, true, length, take, All}
use potatodb.Prelude.Member.{Member}
use potatodb.Prelude.Utf8.{encode_text, encode_char}
use potatodb.Tests.Hasher.{sum_hasher, sum_bytes, sound, full_disk}
use potatodb.Wal.Entry.{WalEntry, IsValid, pending, committed, aborted, encode_entry}
use potatodb.Wal.Log
use potatodb.Wal.Log.{
  entry, read_entry, loaded, invalid_status, load, recover, replay, replayed, txns_with,
}
use potatodb.Wal.Codec.{read-encode}
use potatodb.Wal.Torn.{whole, encode_log, load-take}
use potatodb.Wal.Replay.{Marked, IsReplayable, Member-replay}
use potatodb.Wal.Total.{load_total}
use potatodb.Wal.Crash.{crash_before_commit, crash_after_commit}
use potatodb.Prelude.Bytes.{to_le_bytes}
use potatodb.Wal.File.{
  Wal, ok, open_wal, append, write_entry, write_all, flush, sync_data, put_bytes, judge, checkpoint,
  maybe_checkpoint,
}
use potatodb.Wal.Journal.{Holds}
use potatodb.Wal.Session.{journal, commit_txn, run, run-recover, append-recover}
use potatodb.Wal.Checkpoint.{checkpoint_leftover}

-- An INSERT in transaction 1, its commit marker, and an auto-committed statement.
abbrev insert_entry : WalEntry
insert_entry = record { txn_id = 1; status = pending; sql = 0x49 ∷ 0x4E ∷ [] }

abbrev commit_entry : WalEntry
commit_entry = record { txn_id = 1; status = committed; sql = [] }

abbrev auto_entry : WalEntry
auto_entry = record { txn_id = 0; status = pending; sql = 0x44 ∷ [] }

insert_entry-IsValid : IsValid insert_entry
unfolding encode_text encode_char
insert_entry-IsValid = record {
  txn = omega arith;
  text = (0x49 ∷ 0x4E ∷ [], (inl (omega arith), (inl (omega arith), tt)), refl);
  fits = omega arith;
}

commit_entry-IsValid : IsValid commit_entry
unfolding encode_text encode_char
commit_entry-IsValid = record { txn = omega arith; text = ([], tt, refl); fits = omega arith }

auto_entry-IsValid : IsValid auto_entry
unfolding encode_text encode_char
auto_entry-IsValid = record {
  txn = omega arith;
  text = (0x44 ∷ [], (inl (omega arith), tt), refl);
  fits = omega arith;
}

abbrev entries : List WalEntry
entries = insert_entry ∷ commit_entry ∷ auto_entry ∷ []

entries-IsValid : All IsValid entries
entries-IsValid = (insert_entry-IsValid, (commit_entry-IsValid, (auto_entry-IsValid, tt)))

read-encode_example :
    read_entry sum_hasher (encode_entry sum_hasher insert_entry ++ 7 ∷ [])
    ≡ entry insert_entry (7 ∷ [])
read-encode_example = read-encode sum_hasher insert_entry (7 ∷ []) insert_entry-IsValid

load-take_example :
    load sum_hasher (take 20 (encode_log sum_hasher entries)) ≡ loaded (whole 20 entries)
load-take_example = load-take sum_hasher 20 entries entries-IsValid

load_total_example :
    ((es : List WalEntry) × (load sum_hasher (13 ∷ 0 ∷ 0 ∷ 0 ∷ 5 ∷ []) ≡ loaded es))
    ⊎ ((b : ℕ) × (load sum_hasher (13 ∷ 0 ∷ 0 ∷ 0 ∷ 5 ∷ []) ≡ invalid_status b))
load_total_example = load_total sum_hasher (13 ∷ 0 ∷ 0 ∷ 0 ∷ 5 ∷ [])

Member-replay_example :
    Member insert_entry (replay entries)
    ↔ (Member insert_entry entries × IsReplayable entries insert_entry)
Member-replay_example = Member-replay entries insert_entry

replay_test : replay entries ≡ insert_entry ∷ auto_entry ∷ []
unfolding replay replayed txns_with
replay_test = refl

whole_test : whole 20 entries ≡ insert_entry ∷ []
unfolding whole
whole_test = refl

no_commit : ¬ (Marked committed (insert_entry ∷ auto_entry ∷ []) 1)
no_commit (m, inl e, st, tx) = cc
no_commit (m, inr (inl e), st, tx) = cc
no_commit (m, inr (inr e), st, tx) = e

crash_before_commit_example :
    (replayed : List WalEntry) × (recover sum_hasher
        (some (take 30 (encode_log sum_hasher (insert_entry ∷ auto_entry ∷ []))))
      ≡ Log.ok replayed)
    × ¬ (Member insert_entry replayed)
crash_before_commit_example =
    crash_before_commit sum_hasher 30 (insert_entry ∷ auto_entry ∷ []) insert_entry
      (insert_entry-IsValid, (auto_entry-IsValid, tt)) (omega arith) no_commit

no_abort : ¬ (Marked aborted entries 1)
no_abort (m, inl e, st, tx) = cc
no_abort (m, inr (inl e), st, tx) = cc
no_abort (m, inr (inr (inl e)), st, tx) = cc
no_abort (m, inr (inr (inr e)), st, tx) = e

crash_after_commit_example :
    (replayed : List WalEntry) × (recover sum_hasher
        (some (take 40 (encode_log sum_hasher entries)))
      ≡ Log.ok replayed)
    × Member insert_entry replayed
crash_after_commit_example =
    crash_after_commit sum_hasher 40 (insert_entry ∷ commit_entry ∷ []) (auto_entry ∷ [])
      commit_entry insert_entry entries-IsValid (omega arith) (inr (inl refl)) refl no_abort
      (inl refl) refl refl (λ e. cc)

abbrev old_log : Wal
old_log = record { file = encode_log sum_hasher (insert_entry ∷ []); buffer = []; cursor = none }

old_log-Holds : Holds sum_hasher old_log (insert_entry ∷ [])
old_log-Holds = record { bytes = append-nil _; at_end = inl refl }

abbrev committed_log : Wal
committed_log = record {
  file = encode_log sum_hasher (insert_entry ∷ []);
  buffer = encode_entry sum_hasher commit_entry;
  cursor = none;
}

handed_commit : write_entry sum_hasher sound commit_entry old_log ≡ ok tt committed_log
unfolding write_entry write_all to_le_bytes encode_entry
handed_commit = refl

run-recover_example :
    recover sum_hasher (
      some
        (run sum_hasher
          ((sound, commit_txn 1) ∷ (full_disk, journal auto_entry) ∷ [])
          old_log).file)
    ≡ Log.ok (
        replay (
          whole
            (length
              (run sum_hasher
                ((sound, commit_txn 1) ∷ (full_disk, journal auto_entry) ∷ [])
                old_log).file)
            entries))
run-recover_example =
    run-recover sum_hasher sound (insert_entry ∷ []) old_log
      ((sound, commit_txn 1) ∷ (full_disk, journal auto_entry) ∷ []) (unfold open_wal in refl)
      (committed_log, handed_commit, tt) entries-IsValid

abbrev longer_log : Wal
longer_log = record {
  file = encode_log sum_hasher (insert_entry ∷ []) ++ encode_entry sum_hasher commit_entry;
  buffer = [];
  cursor = none;
}

abbrev fresh_log : Wal
fresh_log = record { file = []; buffer = []; cursor = some 0 }

append_run : append sum_hasher sound commit_entry old_log ≡ ok tt longer_log
unfolding append write_entry flush sync_data put_bytes encode_log encode_entry to_le_bytes sum_bytes
append_run = refl

maybe_checkpoint_run : maybe_checkpoint sound 1 old_log ≡ ok true fresh_log
unfolding maybe_checkpoint judge checkpoint flush put_bytes encode_log encode_entry to_le_bytes
    sum_bytes
maybe_checkpoint_run = refl

append-recover_example :
    recover sum_hasher (some longer_log.file) ≡ Log.ok (replay (insert_entry ∷ commit_entry ∷ []))
append-recover_example =
    append-recover sum_hasher sound old_log longer_log (insert_entry ∷ []) commit_entry
      old_log-Holds (insert_entry-IsValid, (commit_entry-IsValid, tt)) append_run

checkpoint_leftover_example :
    checkpoint sound (record { file = 1 ∷ 2 ∷ []; buffer = 3 ∷ []; cursor = none })
    ≡ ok tt (record { file = 3 ∷ []; buffer = []; cursor = some 0 })
checkpoint_leftover_example =
    checkpoint_leftover sound (record { file = 1 ∷ 2 ∷ []; buffer = 3 ∷ []; cursor = none }) 3 []
      refl refl refl refl
