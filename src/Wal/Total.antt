-- ===== src/Wal/Total.antt =====
-- The reading loop of `recover` ends on every file.
use potatodb.Prelude.{ℕ, zero, suc, ◌<◌, ◌≡◌, ◌≢◌, refl, ◌⊎◌, inl, inr, arith}
use potatodb.Prelude.{List, length, Option-cases}
use potatodb.Prelude.{drop, get_or}
use potatodb.Prelude.Bytes.{from_le_bytes, read_exact, length-read_exact}
use potatodb.Wal.Crc.{Hasher}
use potatodb.Wal.Entry.{WalEntry, try_from}
use potatodb.Wal.Log.{
  Round, stop, invalid, entry, Loaded, loaded, invalid_status, out_of_fuel, decode_payload, push,
  check_entry, read_body, read_entry, read_loop, load,
}

decode_payload_rest :
    (p rest : List ℕ) (e : WalEntry) (left : List ℕ)
    → decode_payload p rest ≡ entry e left
    → left ≡ rest
unfolding decode_payload
decode_payload_rest p rest e left h = elim (Option-cases (try_from (get_or p 8 0))) [
  | inl n ↦ cc (rw (n, decode_payload) at h)
  | inr (s, q) ↦ cc (rw (q, decode_payload) at h)
]

module _ (crc : Hasher) where
  check_entry_rest :
      (buf rest : List ℕ) (e : WalEntry) (left : List ℕ)
      → check_entry crc buf rest ≡ entry e left
      → left ≡ rest
  unfolding check_entry
  check_entry_rest buf rest e left h = ground (arith, decode_payload_rest (drop 4 buf) rest e left)

  read_body_rest :
      (n : ℕ) (bytes : List ℕ) (e : WalEntry) (left : List ℕ)
      → read_body crc n bytes ≡ entry e left
      → length left < length bytes
  unfolding read_body
  read_body_rest n bytes e left h = elim (Option-cases (read_exact n bytes)) [
    | inl q ↦ ground (arith, q)
    | inr ((buf, rest), q) ↦
        ground (arith, q, length-read_exact n bytes buf rest q, check_entry_rest buf rest e left)
  ]

  -- A round that reads an entry takes bytes away.
  pub read_entry_rest :
      (bytes : List ℕ) (e : WalEntry) (left : List ℕ)
      → read_entry crc bytes ≡ entry e left
      → length left < length bytes
  unfolding read_entry
  read_entry_rest bytes e left h = elim (Option-cases (read_exact 4 bytes)) [
    | inl q ↦ ground (arith, q)
    | inr ((buf, rest), q) ↦ ground (
      arith,
      q,
      length-read_exact 4 bytes buf rest q,
      read_body_rest (from_le_bytes buf) rest e left,
    )
  ]

  push-ne-out_of_fuel : (e : WalEntry) (l : Loaded) → l ≢ out_of_fuel → push e l ≢ out_of_fuel
  push-ne-out_of_fuel e (loaded es) h = λ p. cc
  push-ne-out_of_fuel e (invalid_status b) h = λ p. cc
  push-ne-out_of_fuel e out_of_fuel h = h

  read_loop_round :
      (fuel : ℕ) (bytes : List ℕ) (r : Round)
      → read_entry crc bytes ≡ r
      → ((rest : List ℕ) → length rest < length bytes → read_loop crc fuel rest ≢ out_of_fuel)
      → read_loop crc (suc fuel) bytes ≢ out_of_fuel
  unfolding read_loop
  read_loop_round fuel bytes stop q ih = rw (q, read_loop) (λ p. cc)
  read_loop_round fuel bytes (invalid b) q ih = rw (q, read_loop) (λ p. cc)
  read_loop_round fuel bytes (entry e rest) q ih =
      rw (q, read_loop)
        (push-ne-out_of_fuel e (read_loop crc fuel rest) (ih rest (read_entry_rest bytes e rest q)))

  read_loop-ne-out_of_fuel :
      (fuel : ℕ) (bytes : List ℕ) → length bytes < fuel → read_loop crc fuel bytes ≢ out_of_fuel
  read_loop-ne-out_of_fuel zero bytes h = elim h [ ]
  read_loop-ne-out_of_fuel (suc fuel) bytes h =
      read_loop_round fuel bytes (read_entry crc bytes) refl
        (λ rest shorter. read_loop-ne-out_of_fuel fuel rest (omega arith))

  load-cases :
      (l : Loaded)
      → l ≢ out_of_fuel
      → ((es : List WalEntry) × (l ≡ loaded es)) ⊎ ((b : ℕ) × (l ≡ invalid_status b))
  load-cases (loaded es) h = inl (es, refl)
  load-cases (invalid_status b) h = inr (b, refl)
  load-cases out_of_fuel h = absurd (h refl)

  -- On every file, of any bytes, the reading loop ends: with entries or with a bad status byte.
  pub load_total :
      (bytes : List ℕ)
      → ((es : List WalEntry) × (load crc bytes ≡ loaded es))
        ⊎ ((b : ℕ) × (load crc bytes ≡ invalid_status b))
  unfolding load
  load_total bytes =
      load-cases _ (read_loop-ne-out_of_fuel (suc (length bytes)) bytes (omega arith))
