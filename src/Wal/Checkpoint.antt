-- ===== src/Wal/Checkpoint.antt =====
-- `checkpoint` and `maybe_checkpoint`: when the log is emptied, and what a failed write leaves.
use potatodb.Prelude.{ℕ, ◌<◌, ◌≡◌, refl, sym, ap, ◌∙◌, ◌⊎◌, inl, inr, arith, Bool, true, false}
use potatodb.Prelude.{
  none, some, List, [], ◌∷◌, ◌++◌, append-nil, length, take, zero, suc, Option-cases, Bool-cases,
  leb, ◌==◌, ◌||◌, subst,
}
use potatodb.Wal.Crc.{Hasher}
use potatodb.Wal.Entry.{WalEntry}
use potatodb.Wal.File.{
  Device, Wal, ok, flush, reach, checkpoint, maybe_checkpoint, judge, put_bytes,
}
use potatodb.Wal.Torn.{encode_log}
use potatodb.Wal.Journal.{Io-cases, Holds, flush-Holds, flush_ok}
use potatodb.Wal.Writer.{after}

put_reach_nil : (d : Device) (w : Wal) → put_bytes w (reach d []) ≡ w
unfolding put_bytes
put_reach_nil d w = elim (Option-cases d.written) [
  | inl all ↦ ground arith
  | inr (k, part) ↦ ap (put_bytes w) {y = []} (ground (arith, take_nil k))
]
  where
    take_nil : (k : ℕ) → take {A = ℕ} k [] ≡ []
    take_nil zero = refl
    take_nil (suc k) = refl

checkpoint_empty :
    (d : Device) (w w' : Wal)
    → w.buffer ≡ []
    → checkpoint d w ≡ ok tt w'
    → w' ≡ record { file = []; buffer = []; cursor = some 0 }
unfolding checkpoint
checkpoint_empty d w w' empty h = ground (
  arith,
  ap (λ b. put_bytes (record w { file = [] }) (reach d b)) empty,
  put_reach_nil d (record w { file = [] }),
)

module _ (crc : Hasher) where
  -- With nothing buffered, a checkpoint that returns `Ok` leaves the empty log, ready for the next
  -- entry at its start.
  pub checkpoint-Holds :
      (d : Device) (w w' : Wal)
      → w.buffer ≡ []
      → checkpoint d w ≡ ok tt w'
      → (w'.file ≡ []) × (w'.buffer ≡ []) × Holds crc w' []
  checkpoint-Holds d w w' empty h =
      let fresh = checkpoint_empty d w w' empty h in
      (
        ap (λ (x : Wal). x.file) fresh,
        ap (λ (x : Wal). x.buffer) fresh,
        rw fresh (record { bytes = unfold encode_log in refl; at_end = inr refl }),
      )

-- A failed flush keeps bytes in the buffer; a checkpoint then writes them into the file that it has
-- truncated, so that the log is not empty behind it, and the next write overwrites them.
pub checkpoint_leftover :
    (d : Device) (w : Wal) (b : ℕ) (bs : List ℕ)
    → d.opened ≡ true
    → d.written ≡ none
    → w.cursor ≡ none
    → w.buffer ≡ b ∷ bs
    → checkpoint d w ≡ ok tt (record { file = b ∷ bs; buffer = []; cursor = some 0 })
unfolding checkpoint put_bytes
checkpoint_leftover d w b bs opened all append_mode held = ground arith

after_flush :
    (crc : Hasher) (d : Device) (t : ℕ) (w w' : Wal) (es : List WalEntry) (b : Bool)
    → Holds crc w es
    → w.buffer ≡ []
    → judge d t w ≡ ok b w'
    → ((b ≡ true) × (w'.file ≡ []) × Holds crc w' [])
      ⊎ ((b ≡ false) × (w'.file ≡ encode_log crc es) × (0 < t) × (length w'.file < t))
after_flush crc d t w w' es b h empty e = elim (Bool-cases d.stat) [
  | inr gone ↦ absurd (unfold judge in cc (rw (gone, judge) at e))
  | inl there ↦ elim (Bool-cases (t == 0 || leb t (length w.file))) [
    | inr keep ↦
        let same : w' ≡ w = unfold judge in ground arith in
        let file : w'.file ≡ encode_log crc es =
          ap (λ (x : Wal). x.file) same
          ∙ sym (append-nil w.file)
          ∙ ap (λ t. w.file ++ t) (sym empty)
          ∙ h.bytes in
        inr (
          unfold judge in ground arith,
          file,
          ground arith,
          ground (arith, ap (λ (x : Wal). length x.file) same),
        )
    | inl due ↦ elim (Io-cases (checkpoint d w)) [
      | inr (w1, f) ↦ absurd (unfold judge in ground (arith, f))
      | inl (u, w1, f) ↦
          let same : w' ≡ w1 = unfold judge in ground (arith, f) in
          inl (
            unfold judge in ground (arith, f),
            rw same (checkpoint-Holds crc d w w1 empty f).0,
            rw same (checkpoint-Holds crc d w w1 empty f).2,
          )
    ]
  ]
]

-- `maybe_checkpoint` that returns `Ok`: with `false` every entry is in the file, which is shorter
-- than the threshold; with `true` the log is empty.
maybe_checkpoint_lem :
    (crc : Hasher) (d : Device) (t : ℕ) (w w' : Wal) (es : List WalEntry) (b : Bool)
    → Holds crc w es
    → maybe_checkpoint d t w ≡ ok b w'
    → ((b ≡ true) × (w'.file ≡ []) × Holds crc w' [])
      ⊎ ((b ≡ false) × (w'.file ≡ encode_log crc es) × (0 < t) × (length w'.file < t))
maybe_checkpoint_lem crc d t w w' es b h e = elim (Io-cases (flush d w)) [
  | inr (w1, f) ↦ absurd (unfold maybe_checkpoint in cc (rw (f, maybe_checkpoint) at e))
  | inl (u, w1, f) ↦
      let held : Holds crc w1 es =
        subst (λ m. Holds crc (after m) es) f (flush-Holds crc d w es h) in
      let empty : w1.buffer ≡ [] = flush_ok crc d w w1 u f in
      after_flush crc d t w1 w' es b held empty
        (unfold maybe_checkpoint in rw (f, maybe_checkpoint) at e)
]
