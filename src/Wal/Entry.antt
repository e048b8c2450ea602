-- ===== src/Wal/Entry.antt =====
-- `EntryStatus`, `WalEntry` and the bytes that `Wal::write_entry` hands to its writer.
use potatodb.Prelude.{ℕ, zero, suc, ◌+◌, ◌%◌, ◌^◌, ◌<◌, ◌≡◌, refl, List, [], ◌∷◌, ◌++◌, length}
use potatodb.Prelude.{Bool, true, false, Option, none, some}
use potatodb.Prelude.Bytes.{to_le_bytes}
use potatodb.Prelude.Utf8.{IsUtf8}
use potatodb.Wal.Crc.{Hasher}

pub data EntryStatus : Type 0 where
  pending committed aborted : EntryStatus

-- `entry.status as u8`
abbrev pub status_byte : EntryStatus → ℕ
status_byte pending = 0
status_byte committed = 1
status_byte aborted = 2

-- `EntryStatus::try_from`; `none` is the `InvalidData` error.
abbrev pub try_from : ℕ → Option EntryStatus
try_from zero = some pending
try_from (suc zero) = some committed
try_from (suc (suc zero)) = some aborted
try_from (suc (suc (suc n))) = none

-- `status == other`
abbrev pub status_eq : EntryStatus → EntryStatus → Bool
status_eq pending pending = true
status_eq committed committed = true
status_eq aborted aborted = true
status_eq _ _ = false

-- `sql` is the statement's UTF-8 bytes.
pub record WalEntry : Type 0 where
  pub txn_id : ℕ
  pub status : EntryStatus
  pub sql : List ℕ

-- What the types of the source give (`u64`, `String`), and that the length field does not wrap.
pub record IsValid (e : WalEntry) : Type 0 where
  pub txn : e.txn_id < 2 ^ 64
  pub text : IsUtf8 e.sql
  pub fits : 13 + length e.sql < 2 ^ 32

module _ (crc : Hasher) where
  -- The checksum over txn, status and sql, in three updates.
  unfoldable pub entry_crc : WalEntry → ℕ
  entry_crc e =
      let h1 = crc.update crc.init (to_le_bytes 8 e.txn_id) in
      let h2 = crc.update h1 (status_byte e.status ∷ []) in
      let h3 = crc.update h2 e.sql in crc.finalize h3

  -- The five `write_all` calls, in order.
  unfoldable pub encode_entry : WalEntry → List ℕ
  unfolding entry_crc
  encode_entry e =
      let payload_len = 8 + 1 + length e.sql in
      let total_len = (4 + payload_len) % 2 ^ 32 in
      to_le_bytes 4 total_len
      ++ (to_le_bytes 4 (entry_crc e)
          ++ (to_le_bytes 8 e.txn_id ++ ((status_byte e.status ∷ []) ++ e.sql)))

pub try_from-status_byte : (s : EntryStatus) → try_from (status_byte s) ≡ some s
try_from-status_byte pending = refl
try_from-status_byte committed = refl
try_from-status_byte aborted = refl
