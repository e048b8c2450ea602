-- ===== src/Wal/Log.antt =====
-- `Wal::recover`: reading the entries back, and choosing those to replay.
use potatodb.Prelude.{ℕ, zero, suc, ◌+◌, List, [], ◌∷◌, length, take, drop, get_or, any}
use potatodb.Prelude.{filter, is_empty, Bool, true, false, not, ◌&&◌, ◌||◌, Option, none, some}
use potatodb.Prelude.{ltb, ◌==◌, if◌then◌else◌}
use potatodb.Prelude.Bytes.{from_le_bytes, read_exact}
use potatodb.Prelude.Utf8.{from_utf8_lossy}
use potatodb.Wal.Crc.{Hasher}
use potatodb.Wal.Entry.{WalEntry, EntryStatus, pending, committed, aborted, status_eq, try_from}

-- One round of the reading loop: `break`, the error of `try_from`, or an entry and the bytes left.
pub data Round : Type 0 where
  stop : Round
  invalid : ℕ → Round
  entry : WalEntry → List ℕ → Round

-- What the reading loop comes to. `out_of_fuel` is no outcome of the source.
pub data Loaded : Type 0 where
  loaded : List WalEntry → Loaded
  invalid_status : ℕ → Loaded
  out_of_fuel : Loaded

unfoldable pub decode_payload : List ℕ → List ℕ → Round
decode_payload payload rest = elim (try_from (get_or payload 8 0)) [
  | none ↦ invalid (get_or payload 8 0)
  | some status ↦
      entry
        (record {
          txn_id = from_le_bytes (take 8 payload);
          status = status;
          sql = from_utf8_lossy (drop 9 payload);
        })
        rest
]

-- `entries.push(e)` before the rest of the loop.
abbrev pub push : WalEntry → Loaded → Loaded
push e (loaded es) = loaded (e ∷ es)
push e (invalid_status b) = invalid_status b
push e out_of_fuel = out_of_fuel

module _ (crc : Hasher) where
  unfoldable pub check_entry : List ℕ → List ℕ → Round
  unfolding decode_payload
  check_entry buf rest =
      let payload = drop 4 buf in
      if from_le_bytes (take 4 buf) == crc.finalize (crc.update crc.init payload)
      then decode_payload payload rest
      else stop

  unfoldable pub read_body : ℕ → List ℕ → Round
  read_body total_len bytes =
      if ltb total_len (4 + 8 + 1) then stop else elim (read_exact total_len bytes) [
        | none ↦ stop
        | some (buf, rest) ↦ check_entry buf rest
      ]

  unfoldable pub read_entry : List ℕ → Round
  read_entry bytes = elim (read_exact 4 bytes) [
    | none ↦ stop
    | some (len_buf, rest) ↦ read_body (from_le_bytes len_buf) rest
  ]

  -- The `loop` of `recover`; every round that goes on takes bytes away.
  unfoldable pub read_loop : ℕ → List ℕ → Loaded
  read_loop zero bytes = out_of_fuel
  read_loop (suc fuel) bytes = elim (read_entry bytes) [
    | stop ↦ loaded []
    | invalid b ↦ invalid_status b
    | entry e rest ↦ push e (read_loop fuel rest)
  ]

  unfoldable pub load : List ℕ → Loaded
  unfolding read_loop
  load bytes = read_loop (suc (length bytes)) bytes

-- The two sets that the second loop of `recover` fills.
unfoldable pub txns_with : EntryStatus → List WalEntry → List ℕ
txns_with s [] = []
txns_with s (e ∷ es) =
    let rest = txns_with s es in
    elim (status_eq e.status s) [ true ↦ e.txn_id ∷ rest | false ↦ rest ]

abbrev pub contains : List ℕ → ℕ → Bool
contains set id = any (λ x. x == id) set

-- The test of the final `filter`.
unfoldable pub replayed : List WalEntry → WalEntry → Bool
replayed entries e =
    status_eq e.status pending
    && (not (is_empty e.sql)
        && ((e.txn_id == 0 || contains (txns_with committed entries) e.txn_id)
            && not (contains (txns_with aborted entries) e.txn_id)))

unfoldable pub replay : List WalEntry → List WalEntry
replay entries = filter (replayed entries) entries

-- `recover` on a file that may be missing. The first component of an error is the bad status byte.
pub data Recovered : Type 0 where
  ok : List WalEntry → Recovered
  err : ℕ → Recovered
  stuck : Recovered

finish : Loaded → Recovered
finish (loaded entries) = ok (replay entries)
finish (invalid_status b) = err b
finish out_of_fuel = stuck

module _ (crc : Hasher) where
  unfoldable pub recover : Option (List ℕ) → Recovered
  unfolding finish
  recover none = ok []
  recover (some bytes) = finish (load crc bytes)
