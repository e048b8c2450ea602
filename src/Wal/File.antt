-- ===== src/Wal/File.antt =====
-- `Wal` itself: the buffered writer over the log file, and its operations. A file operation may
-- fail: `Device` says how far the next one gets.
use potatodb.Prelude.{ℕ, ◌+◌, Bool, true, false, Option, none, some, List, [], ◌++◌, length}
use potatodb.Prelude.{
  ◌-◌, ◌%◌, ◌^◌, ◌∷◌, replicate, take, drop, ltb, leb, ◌==◌, ◌||◌, if◌then◌else◌,
}
use potatodb.Prelude.Bytes.{to_le_bytes}
use potatodb.Wal.Crc.{Hasher}
use potatodb.Wal.Entry.{WalEntry, committed, aborted, status_byte, entry_crc}

-- How far the writes of an operation get: `none` if one succeeds, `some k` if it fails after `k`
-- bytes. `written` is the one of `flush`; `spilled n` and `direct n` are those of the `n`th
-- `write_all`, if it has to empty the buffer and if it passes it by. The others say whether
-- `sync_data`, `open` and `metadata` succeed.
pub record Device : Type 0 where
  pub written : Option ℕ
  pub spilled : ℕ → Option ℕ
  pub direct : ℕ → Option ℕ
  pub synced : Bool
  pub opened : Bool
  pub stat : Bool

-- `BufWriter<File>` and the file at `path`. `cursor` is `none` for a file opened with `append`,
-- and the position of the next write for one opened with `write`.
pub record Wal : Type 0 where
  pub file : List ℕ
  pub buffer : List ℕ
  pub cursor : Option ℕ

-- What an operation comes to: the log, and whether an `io::Error` was returned.
pub data Io {ℓ} (A : Type ℓ) : Type ℓ where
  ok : A → Wal → Io A
  err : Wal → Io A

infixl 5 ◌>>=◌
abbrev pub ◌>>=◌ {ℓ κ} : {A : Type ℓ} {B : Type κ} → Io A → (A → Wal → Io B) → Io B
ok a w >>= f = f a w
err w >>= f = err w

-- Bytes written at the cursor, or at the end in append mode. Writing past the end leaves zeros
-- between, and an empty buffer is not written.
unfoldable pub put_bytes : Wal → List ℕ → Wal
put_bytes w [] = w
put_bytes w (b ∷ bs) = elim w.cursor [
  | none ↦ record w { file = w.file ++ b ∷ bs }
  | some p ↦ record w {
    file =
        take p w.file
        ++ (replicate (p - length w.file) 0 ++ (b ∷ bs ++ drop (p + length (b ∷ bs)) w.file));
    cursor = some (p + length (b ∷ bs));
  }
]

-- The bytes of the buffer that reach the file.
abbrev pub reach : Device → List ℕ → List ℕ
reach d bytes = elim d.written [ none ↦ bytes | some k ↦ take k bytes ]

-- `self.writer.flush()`; on an error the bytes that were not written stay in the buffer.
unfoldable pub flush_to : Option ℕ → Wal → Io (Unit {0})
flush_to none w = ok tt (record (put_bytes w w.buffer) { buffer = [] })
flush_to (some k) w = err (record (put_bytes w (take k w.buffer)) { buffer = drop k w.buffer })

unfoldable pub flush : Device → Wal → Io (Unit {0})
unfolding flush_to
flush d w = flush_to d.written w

-- The buffer of `BufWriter::new`.
abbrev pub capacity : ℕ
capacity = 8192

abbrev pub buffered : List ℕ → Wal → Wal
buffered bytes w = record w { buffer = w.buffer ++ bytes }

-- Bytes that pass the buffer by: what is not written of them is kept nowhere.
unfoldable pub write_direct : Option ℕ → List ℕ → Wal → Io (Unit {0})
write_direct none bytes w = ok tt (put_bytes w bytes)
write_direct (some k) bytes w = err (put_bytes w (take k bytes))

unfoldable pub write_rest : Option ℕ → List ℕ → Wal → Io (Unit {0})
unfolding write_direct
write_rest direct bytes w =
    if leb capacity (length bytes) then write_direct direct bytes w else ok tt (buffered bytes w)

-- `BufWriter::write_all`
unfoldable pub write_all : Option ℕ → Option ℕ → List ℕ → Wal → Io (Unit {0})
unfolding flush_to write_rest
write_all spilled direct bytes w =
    if ltb (length bytes) (capacity - length w.buffer)
    then ok tt (buffered bytes w)
    else (if ltb (capacity - length w.buffer) (length bytes) then flush_to spilled w else ok tt w)
      >>= λ _ w1. write_rest direct bytes w1

-- `self.writer.get_ref().sync_data()`
unfoldable pub sync_data : Device → Wal → Io (Unit {0})
sync_data d w = if d.synced then ok tt w else err w

-- `Wal::open`: the file is created if it is missing, and keeps its bytes.
unfoldable pub open_wal : Device → Option (List ℕ) → Option Wal
open_wal d file =
    if d.opened
    then some
        (record { file = elim file [ none ↦ [] | some bytes ↦ bytes ]; buffer = []; cursor = none })
    else none

-- `Wal::checkpoint`: the file is opened anew and truncated; only then is the old writer dropped,
-- which flushes what it still held, at the end of the file or at its old position.
unfoldable pub checkpoint : Device → Wal → Io (Unit {0})
checkpoint d w =
    if d.opened
    then ok tt (record (put_bytes (record w { file = [] }) (reach d w.buffer)) {
      buffer = [];
      cursor = some 0;
    })
    else err w

-- `Wal::maybe_checkpoint`; `metadata` gives the length of the file.
unfoldable pub judge : Device → ℕ → Wal → Io Bool
judge d threshold w =
    if d.stat
    then (if threshold == 0 || leb threshold (length w.file)
        then (checkpoint d w >>= λ _ w1. ok true w1)
        else ok false w)
    else err w

unfoldable pub maybe_checkpoint : Device → ℕ → Wal → Io Bool
maybe_checkpoint d threshold w = flush d w >>= λ _ w1. judge d threshold w1

module _ (crc : Hasher) where
  -- `Wal::write_entry`
  unfoldable pub write_entry : Device → WalEntry → Wal → Io (Unit {0})
  unfolding write_all entry_crc
  write_entry d e w =
      let payload_len = 8 + 1 + length e.sql in
      let total_len = (4 + payload_len) % 2 ^ 32 in
      write_all (d.spilled 0) (d.direct 0) (to_le_bytes 4 total_len) w >>= λ _ w1.
      write_all (d.spilled 1) (d.direct 1) (to_le_bytes 4 (entry_crc crc e)) w1 >>= λ _ w2.
      write_all (d.spilled 2) (d.direct 2) (to_le_bytes 8 e.txn_id) w2 >>= λ _ w3.
      write_all (d.spilled 3) (d.direct 3) (status_byte e.status ∷ []) w3 >>= λ _ w4.
      write_all (d.spilled 4) (d.direct 4) e.sql w4

  unfoldable pub append_no_sync : Device → WalEntry → Wal → Io (Unit {0})
  unfolding write_entry
  append_no_sync d e w = write_entry d e w >>= λ _ w1. flush d w1

  unfoldable pub append : Device → WalEntry → Wal → Io (Unit {0})
  unfolding write_entry
  append d e w = write_entry d e w >>= λ _ w1. (flush d w1 >>= λ _ w2. sync_data d w2)

  unfoldable pub commit_no_checkpoint : Device → ℕ → Wal → Io (Unit {0})
  commit_no_checkpoint d txn_id w =
      append d (record { txn_id = txn_id; status = committed; sql = [] }) w

  unfoldable pub commit : Device → ℕ → Wal → Io (Unit {0})
  commit d txn_id w = commit_no_checkpoint d txn_id w

  unfoldable pub abort : Device → ℕ → Wal → Io (Unit {0})
  abort d txn_id w = append d (record { txn_id = txn_id; status = aborted; sql = [] }) w
