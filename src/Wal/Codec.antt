-- ===== src/Wal/Codec.antt =====
-- Reading back what `write_entry` wrote.
use potatodb.Prelude.{ℕ, ◌+◌, ◌≡◌, refl, ap, ◌∙◌, arith}
use potatodb.Prelude.{List, [], ◌∷◌, ◌++◌, append_assoc, length, length-append, take, drop, get_or}
use potatodb.Prelude.{take-append, drop-append, ==_refl, le→ltb}
use potatodb.Prelude.Bytes.{to_le_bytes, from-to, length-to, read_exact-append}
use potatodb.Prelude.Utf8.{from_utf8_lossy-IsUtf8}
use potatodb.Wal.Crc.{Hasher}
use potatodb.Wal.Entry.{
  WalEntry, IsValid, status_byte, entry_crc, encode_entry, try_from-status_byte,
}
use potatodb.Wal.Log.{entry, decode_payload, check_entry, read_body, read_entry}

-- The bytes under the checksum, and the size of an entry in the file.
abbrev pub payload : WalEntry → List ℕ
payload e = to_le_bytes 8 e.txn_id ++ (status_byte e.status ∷ e.sql)

abbrev pub size : WalEntry → ℕ
size e = 17 + length e.sql

pub length-payload : (e : WalEntry) → length (payload e) ≡ 9 + length e.sql
length-payload e = omega (
  arith,
  length-append (to_le_bytes 8 e.txn_id) (status_byte e.status ∷ e.sql),
  length-to 8 e.txn_id,
)

module _ (crc : Hasher) where
  abbrev pub body : WalEntry → List ℕ
  body e = to_le_bytes 4 (entry_crc crc e) ++ payload e

  pub length-body : (e : WalEntry) → length (body e) ≡ 13 + length e.sql
  length-body e = omega (
    arith,
    length-append (to_le_bytes 4 (entry_crc crc e)) (payload e),
    length-to 4 (entry_crc crc e),
    length-payload e,
  )

  -- The three updates are one over the payload.
  entry_crc-payload :
      (e : WalEntry) → entry_crc crc e ≡ crc.finalize (crc.update crc.init (payload e))
  unfolding entry_crc
  entry_crc-payload e = ap crc.finalize (
      crc.update-update _ (status_byte e.status ∷ []) e.sql
      ∙ crc.update-update crc.init (to_le_bytes 8 e.txn_id) (status_byte e.status ∷ e.sql))

  pub encode_entry_lem :
      (e : WalEntry) → IsValid e → encode_entry crc e ≡ to_le_bytes 4 (length (body e)) ++ body e
  unfolding encode_entry
  encode_entry_lem e v = ap (λ n. to_le_bytes 4 n ++ body e) (omega (arith, length-body e, v.fits))

  pub length-encode_entry : (e : WalEntry) → IsValid e → length (encode_entry crc e) ≡ size e
  length-encode_entry e v = rw (encode_entry_lem e v) (
      omega (
        arith,
        length-append (to_le_bytes 4 (length (body e))) (body e),
        length-to 4 (length (body e)),
        length-body e,
      ))

  decode_payload_lem :
      (e : WalEntry) (rest : List ℕ) → IsValid e → decode_payload (payload e) rest ≡ entry e rest
  unfolding decode_payload
  decode_payload_lem e rest v =
      let status : get_or (payload e) 8 0 ≡ status_byte e.status = unfold to_le_bytes in refl in
      let front : take 8 (payload e) ≡ to_le_bytes 8 e.txn_id = unfold to_le_bytes in refl in
      let back : drop 9 (payload e) ≡ e.sql = unfold to_le_bytes in refl in
      rw (status, try_from-status_byte e.status, front, back, decode_payload)
        (rw (from-to 8 e.txn_id v.txn, from_utf8_lossy-IsUtf8 e.sql v.text))

  check_entry_lem :
      (e : WalEntry) (rest : List ℕ) → IsValid e → check_entry crc (body e) rest ≡ entry e rest
  unfolding check_entry
  check_entry_lem e rest v =
      rw
        (
          take-append 4 (to_le_bytes 4 (entry_crc crc e)) (payload e) (length-to 4 _),
          drop-append 4 (to_le_bytes 4 (entry_crc crc e)) (payload e) (length-to 4 _),
          ← entry_crc-payload e,
          from-to 4 (entry_crc crc e) (unfold entry_crc in crc.finalize_lt _),
          ==_refl (entry_crc crc e),
        )
        (decode_payload_lem e rest v)

  -- A valid entry is read back as it was written, whatever bytes follow it.
  pub read-encode :
      (e : WalEntry) (rest : List ℕ)
      → IsValid e
      → read_entry crc (encode_entry crc e ++ rest) ≡ entry e rest
  unfolding read_entry read_body
  read-encode e rest v =
      rw
        (
          encode_entry_lem e v,
          append_assoc (to_le_bytes 4 (length (body e))) (body e) rest,
          read_entry,
          read_body,
          read_exact-append 4 (to_le_bytes 4 (length (body e))) (body e ++ rest) (length-to 4 _),
          from-to 4 (length (body e)) (omega (arith, length-body e, v.fits)),
          le→ltb (length (body e)) 13 (omega (arith, length-body e)),
          read_exact-append (length (body e)) (body e) rest refl,
        )
        (check_entry_lem e rest v)
