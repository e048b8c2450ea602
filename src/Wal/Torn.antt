-- ===== src/Wal/Torn.antt =====
-- A log file that a crash cut at any byte: recovery reads exactly the entries that are whole.
use potatodb.Prelude.{ℕ, zero, suc, ◌-◌, ◌<◌, ◌≡◌, refl, sym, ap, ◌∙◌, inl, inr, arith}
use potatodb.Prelude.{List, [], ◌∷◌, ◌++◌, append_assoc, length, length-append, take, All}
use potatodb.Prelude.{take-append_past, take-append_front, length-take}
use potatodb.Prelude.{leb, leb→le, le→ltb, if◌then◌else◌, Bool-cases}
use potatodb.Prelude.Bytes.{to_le_bytes, from-to, length-to, read_exact-append, read_exact_short}
use potatodb.Wal.Crc.{Hasher}
use potatodb.Wal.Entry.{WalEntry, IsValid, encode_entry}
use potatodb.Wal.Log.{entry, stop, push, loaded, read_body, read_entry, read_loop, load}
use potatodb.Wal.Codec.{size, body, length-body, encode_entry_lem, length-encode_entry, read-encode}

-- The entries that lie wholly within the first `n` bytes.
unfoldable pub whole : ℕ → List WalEntry → List WalEntry
whole n [] = []
whole n (e ∷ es) = let rest = whole (n - size e) es in if leb (size e) n then e ∷ rest else []

module _ (crc : Hasher) where
  -- A log as the file holds it: its entries one after another.
  unfoldable pub encode_log : List WalEntry → List ℕ
  encode_log [] = []
  encode_log (e ∷ es) = encode_entry crc e ++ encode_log es

  pub encode_log-append :
      (xs ys : List WalEntry) → encode_log (xs ++ ys) ≡ encode_log xs ++ encode_log ys
  unfolding encode_log
  encode_log-append [] ys = refl
  encode_log-append (x ∷ xs) ys =
      ap (λ t. encode_entry crc x ++ t) (encode_log-append xs ys)
      ∙ sym (append_assoc (encode_entry crc x) (encode_log xs) (encode_log ys))

  read_short : (bytes : List ℕ) → length bytes < 4 → read_entry crc bytes ≡ stop
  unfolding read_entry
  read_short bytes h = rw (read_exact_short 4 bytes h, read_entry)

  read_cut_body :
      (e : WalEntry) (k : ℕ)
      → IsValid e
      → k < length (body crc e)
      → read_entry crc (to_le_bytes 4 (length (body crc e)) ++ take k (body crc e)) ≡ stop
  unfolding read_entry read_body
  read_cut_body e k v h = rw (
    read_entry,
    read_body,
    read_exact-append 4 (to_le_bytes 4 (length (body crc e))) (take k (body crc e)) (length-to 4 _),
    from-to 4 (length (body crc e)) (omega (arith, length-body crc e, v.fits)),
    le→ltb (length (body crc e)) 13 (omega (arith, length-body crc e)),
    read_exact_short (length (body crc e)) (take k (body crc e))
        (omega (arith, length-take k (body crc e))),
  )

  -- A valid entry of which the last bytes are missing ends the reading.
  read_torn :
      (e : WalEntry) (k : ℕ)
      → IsValid e
      → k < size e
      → read_entry crc (take k (encode_entry crc e)) ≡ stop
  read_torn e k v h = elim (Bool-cases (leb 4 k)) [
    | inr short ↦
        read_short (take k (encode_entry crc e))
          (ground (arith, length-take k (encode_entry crc e)))
    | inl long ↦
        rw
          (
            encode_entry_lem crc e v,
            take-append_past k (to_le_bytes 4 (length (body crc e))) (body crc e)
                (omega (arith, length-to 4 (length (body crc e)), leb→le 4 k long)),
          )
          (read_cut_body e _ v
            (omega (arith, length-to 4 (length (body crc e)), length-body crc e, leb→le 4 k long)))
  ]

  read_loop_stop :
      (fuel : ℕ) (bytes : List ℕ)
      → read_entry crc bytes ≡ stop
      → read_loop crc (suc fuel) bytes ≡ loaded []
  unfolding read_loop
  read_loop_stop fuel bytes h = rw (h, read_loop)

  read_loop_entry :
      (fuel : ℕ) (bytes : List ℕ) (e : WalEntry) (rest : List ℕ)
      → read_entry crc bytes ≡ entry e rest
      → read_loop crc (suc fuel) bytes ≡ push e (read_loop crc fuel rest)
  unfolding read_loop
  read_loop_entry fuel bytes e rest h = rw (h, read_loop)

  take_nil : (n : ℕ) → take {A = ℕ} n [] ≡ []
  take_nil zero = refl
  take_nil (suc n) = refl

  read_loop-take :
      (fuel n : ℕ) (es : List WalEntry)
      → All IsValid es
      → length (take n (encode_log es)) < fuel
      → read_loop crc fuel (take n (encode_log es)) ≡ loaded (whole n es)
  read_loop-take zero n es vs h = elim h [ ]
  read_loop-take (suc fuel) n [] vs h =
      unfold encode_log whole in
      rw (take_nil n) (read_loop_stop fuel [] (read_short [] (omega arith)))
  read_loop-take (suc fuel) n (e ∷ es) vs h = elim (Bool-cases (leb (size e) n)) [
    | inl fits ↦
        let rest : List ℕ = take (n - size e) (encode_log es) in
        let cut : take n (encode_log (e ∷ es)) ≡ encode_entry crc e ++ rest =
          unfold encode_log in
          take-append_past n (encode_entry crc e) (encode_log es)
            (omega (arith, length-encode_entry crc e vs.0, leb→le (size e) n fits))
          ∙ ap (λ k. encode_entry crc e ++ take (n - k) (encode_log es))
              (length-encode_entry crc e vs.0) in
        rw
          (
            cut,
            read_loop_entry fuel (encode_entry crc e ++ rest) e rest (read-encode crc e rest vs.0),
          )
          (rw
            (read_loop-take fuel (n - size e) es vs.1 (
              omega (
                arith,
                ap length cut,
                length-append (encode_entry crc e) rest,
                length-encode_entry crc e vs.0,
              )))
            (unfold whole in rw fits))
    | inr torn ↦
        let cut : take n (encode_log (e ∷ es)) ≡ take n (encode_entry crc e) =
          unfold encode_log in
          take-append_front n (encode_entry crc e) (encode_log es)
            (ground (arith, length-encode_entry crc e vs.0)) in
        rw
          (
            cut,
            read_loop_stop fuel (take n (encode_entry crc e)) (read_torn e n vs.0 (ground arith)),
          )
          (unfold whole in rw torn)
  ]

  -- Whatever byte a crash cuts the log of valid entries at, the reading loop returns exactly the
  -- entries that lie wholly before the cut.
  pub load-take :
      (n : ℕ) (es : List WalEntry)
      → All IsValid es
      → load crc (take n (encode_log es)) ≡ loaded (whole n es)
  unfolding load
  load-take n es vs = read_loop-take (suc (length (take n (encode_log es)))) n es vs (omega arith)
