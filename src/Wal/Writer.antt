-- ===== src/Wal/Writer.antt =====
-- The buffered writer of the log: what file and buffer hold after a write, whole or not.
use potatodb.Prelude.{ℕ, ◌+◌, ◌-◌, ◌≤◌, ◌≡◌, refl, sym, ap, ◌∙◌, ◌⊎◌, inl, inr, arith}
use potatodb.Prelude.{Option, none, some, List, [], ◌∷◌, ◌++◌, append-nil, append_assoc, Bool-cases}
use potatodb.Prelude.{
  length, length-append, take, drop, take-append-drop, take_all, drop_all, replicate, ltb, leb,
  leb→le,
}
use potatodb.Wal.Crc.{Hasher}
use potatodb.Wal.Entry.{WalEntry, encode_entry, status_byte}
use potatodb.Wal.File.{
  Device, Wal, Io, ok, err, put_bytes, flush_to, ◌>>=◌, capacity, write_direct, write_rest,
  write_all, write_entry,
}

-- The next write goes to the end of the file.
abbrev pub AtEnd : Wal → Type 0
AtEnd w = (w.cursor ≡ none) ⊎ (w.cursor ≡ some (length w.file))

abbrev pub after {ℓ} : {A : Type ℓ} → Io A → Wal
after (ok a w) = w
after (err w) = w

write_at_end :
    (f bs : List ℕ)
    → take (length f) f
        ++ (replicate (length f - length f) 0 ++ (bs ++ drop (length f + length bs) f))
      ≡ f ++ bs
write_at_end f bs =
    let zero_gap : length f - length f ≡ 0 = omega arith in
    rw
      (
        take_all (length f) f (omega arith),
        zero_gap,
        drop_all (length f + length bs) f (omega arith),
      )
      (ap (λ t. f ++ t) (append-nil bs))

put_bytes_lem :
    (w : Wal) (bs : List ℕ)
    → AtEnd w
    → ((put_bytes w bs).file ≡ w.file ++ bs) × AtEnd (put_bytes w bs)
unfolding put_bytes
put_bytes_lem w [] e = (sym (append-nil w.file), e)
put_bytes_lem w (b ∷ bs) (inl e) = (ground arith, inl (ground arith))
put_bytes_lem w (b ∷ bs) (inr e) =
    let file : (put_bytes w (b ∷ bs)).file ≡ w.file ++ b ∷ bs =
      ground (arith, write_at_end w.file (b ∷ bs)) in
    (file, inr (ground (arith, ap length file, length-append w.file (b ∷ bs))))

-- `flush`, successful or not, moves a front of the buffer to the end of the file.
pub flush_to_lem :
    (o : Option ℕ) (w : Wal)
    → AtEnd w
    → ((after (flush_to o w)).file ++ (after (flush_to o w)).buffer ≡ w.file ++ w.buffer)
      × AtEnd (after (flush_to o w))
unfolding flush_to
flush_to_lem none w e = let (file, end) = put_bytes_lem w w.buffer e in (append-nil _ ∙ file, end)
flush_to_lem (some k) w e =
    let (file, end) = put_bytes_lem w (take k w.buffer) e in
    (
      ap (λ t. t ++ drop k w.buffer) file
          ∙ append_assoc w.file (take k w.buffer) (drop k w.buffer)
          ∙ ap (λ t. w.file ++ t) (take-append-drop k w.buffer),
      end,
    )

pub flush_to_ok :
    (o : Option ℕ) (w w' : Wal) (u : Unit {0}) → flush_to o w ≡ ok u w' → w'.buffer ≡ []
unfolding flush_to
flush_to_ok none w w' u h = ground arith
flush_to_ok (some k) w w' u h = cc

-- File and buffer hold the bytes too after `Ok`, and a front of them after an error.
abbrev pub Wrote : Wal → List ℕ → Io (Unit {0}) → Type 0
Wrote w bytes (ok u w1) = (w1.file ++ w1.buffer ≡ w.file ++ (w.buffer ++ bytes)) × AtEnd w1
Wrote w bytes (err w1) =
    (rest : List ℕ) × (w1.file ++ (w1.buffer ++ rest) ≡ w.file ++ (w.buffer ++ bytes)) × AtEnd w1

three : (a b c d : List ℕ) → a ++ (b ++ (c ++ d)) ≡ (a ++ (b ++ c)) ++ d
three a b c d = ap (λ t. a ++ t) (sym (append_assoc b c d)) ∙ sym (append_assoc a (b ++ c) d)

shifted :
    (w w1 : Wal) (a b : List ℕ) (r : Io (Unit {0}))
    → w1.file ++ w1.buffer ≡ w.file ++ (w.buffer ++ a)
    → Wrote w1 b r
    → Wrote w (a ++ b) r
shifted w w1 a b r e = go r
  where
    same : w1.file ++ (w1.buffer ++ b) ≡ w.file ++ (w.buffer ++ (a ++ b))
    same =
        sym (append_assoc w1.file w1.buffer b)
        ∙ ap (λ t. t ++ b) e
        ∙ sym (three w.file w.buffer a b)

    go : (r : Io (Unit {0})) → Wrote w1 b r → Wrote w (a ++ b) r
    go (ok u w2) (bytes, end) = (bytes ∙ same, end)
    go (err w2) (rest, bytes, end) = (rest, bytes ∙ same, end)

-- One write after another.
then-Wrote :
    (w : Wal) (a b : List ℕ) (m : Io (Unit {0})) (f : Wal → Io (Unit {0}))
    → Wrote w a m
    → ((w1 : Wal) → AtEnd w1 → Wrote w1 b (f w1))
    → Wrote w (a ++ b) (m >>= λ _ w1. f w1)
then-Wrote w a b (ok u w1) f (bytes, end) next = shifted w w1 a b (f w1) bytes (next w1 end)
then-Wrote w a b (err w1) f (rest, bytes, end) next = (
  rest ++ b,
  three w1.file w1.buffer rest b ∙ ap (λ t. t ++ b) bytes ∙ sym (three w.file w.buffer a b),
  end,
)

put_bytes_buffer : (w : Wal) (bs : List ℕ) → (put_bytes w bs).buffer ≡ w.buffer
unfolding put_bytes
put_bytes_buffer w [] = refl
put_bytes_buffer w (b ∷ bs) = ground arith

write_direct-Wrote :
    (o : Option ℕ) (bytes : List ℕ) (w : Wal)
    → AtEnd w
    → w.buffer ≡ []
    → Wrote w bytes (write_direct o bytes w)
unfolding write_direct
write_direct-Wrote none bytes w end empty =
    let (file, end1) = put_bytes_lem w bytes end in
    (
      ap (λ t. (put_bytes w bytes).file ++ t) (put_bytes_buffer w bytes ∙ empty)
          ∙ append-nil _
          ∙ file
          ∙ ap (λ t. w.file ++ (t ++ bytes)) (sym empty),
      end1,
    )
write_direct-Wrote (some k) bytes w end empty =
    let (file, end1) = put_bytes_lem w (take k bytes) end in
    (
      drop k bytes,
      ap (λ t. (put_bytes w (take k bytes)).file ++ (t ++ drop k bytes))
            (put_bytes_buffer w (take k bytes) ∙ empty)
          ∙ ap (λ t. t ++ drop k bytes) file
          ∙ append_assoc w.file (take k bytes) (drop k bytes)
          ∙ ap (λ t. w.file ++ t) (take-append-drop k bytes)
          ∙ ap (λ t. w.file ++ (t ++ bytes)) (sym empty),
      end1,
    )

write_rest-Wrote :
    (o : Option ℕ) (bytes : List ℕ) (w : Wal)
    → AtEnd w
    → (capacity ≤ length bytes → w.buffer ≡ [])
    → Wrote w bytes (write_rest o bytes w)
unfolding write_rest
write_rest-Wrote o bytes w end empty = elim (Bool-cases (leb capacity (length bytes))) [
  | inl q ↦ rw q (write_direct-Wrote o bytes w end (empty (leb→le capacity (length bytes) q)))
  | inr q ↦ rw q (refl, end)
]

no_length : (xs : List ℕ) → length xs ≡ 0 → xs ≡ []
no_length [] h = refl
no_length (x ∷ xs) h = absurd (omega (arith, h))

spilled-Wrote :
    (s o : Option ℕ) (bytes : List ℕ) (w : Wal)
    → AtEnd w
    → Wrote w bytes (flush_to s w >>= λ _ w1. write_rest o bytes w1)
unfolding flush_to
spilled-Wrote none o bytes w end =
    let (all, end1) = flush_to_lem none w end in
    shifted w (record (put_bytes w w.buffer) { buffer = [] }) [] bytes _
      (all ∙ ap (λ t. w.file ++ t) (sym (append-nil w.buffer)))
      (write_rest-Wrote o bytes (record (put_bytes w w.buffer) { buffer = [] }) end1 (λ h. refl))
spilled-Wrote (some k) o bytes w end =
    let (all, end1) = flush_to_lem (some k) w end in
    (
      bytes,
      sym (append_assoc _ (drop k w.buffer) bytes)
          ∙ ap (λ t. t ++ bytes) all
          ∙ append_assoc w.file w.buffer bytes,
      end1,
    )

write_all-Wrote :
    (s o : Option ℕ) (bytes : List ℕ) (w : Wal) → AtEnd w → Wrote w bytes (write_all s o bytes w)
unfolding write_all
write_all-Wrote s o bytes w end =
    elim (Bool-cases (ltb (length bytes) (capacity - length w.buffer))) [
      | inl q ↦ rw q (refl, end)
      | inr q ↦ elim (Bool-cases (ltb (capacity - length w.buffer) (length bytes))) [
        | inl more ↦ rw (q, more) (spilled-Wrote s o bytes w end)
        | inr fits ↦
            rw (q, fits)
              (write_rest-Wrote o bytes w end
                λ large. no_length w.buffer (ground (arith, fits, large)))
      ]
    ]

module _ (crc : Hasher) where
  pub write_entry-Wrote :
      (d : Device) (w : Wal) (e : WalEntry)
      → AtEnd w
      → Wrote w (encode_entry crc e) (write_entry crc d e w)
  unfolding write_entry encode_entry
  write_entry-Wrote d w e end =
      then-Wrote w _ _ _ _ (write_all-Wrote (d.spilled 0) (d.direct 0) _ w end) λ w1 end1.
        then-Wrote w1 _ _ _ _ (write_all-Wrote (d.spilled 1) (d.direct 1) _ w1 end1) λ w2 end2.
          then-Wrote w2 _ _ _ _ (write_all-Wrote (d.spilled 2) (d.direct 2) _ w2 end2) λ w3 end3.
            then-Wrote w3 (status_byte e.status ∷ []) _ _ _
              (write_all-Wrote (d.spilled 3) (d.direct 3) _ w3 end3)
              λ w4 end4. write_all-Wrote (d.spilled 4) (d.direct 4) e.sql w4 end4
