-- ===== src/Wal/Journal.antt =====
-- The log file over the operations of `Wal`, failures included: what file and buffer hold, and what
-- recovery makes of the file.
use potatodb.Prelude.{ℕ, ◌≡◌, refl, sym, ap, ◌∙◌, ◌⊎◌, inl, inr, arith}
use potatodb.Prelude.{some, List, [], ◌∷◌, ◌++◌, append-nil, append_assoc}
use potatodb.Prelude.{length, take, take-append}
use potatodb.Prelude.{All}
use potatodb.Wal.Crc.{Hasher}
use potatodb.Wal.Entry.{WalEntry, IsValid, encode_entry}
use potatodb.Wal.File.{
  Device, Wal, Io, ok, err, flush, sync_data, ◌>>=◌, write_entry, append_no_sync, append,
}
use potatodb.Wal.Writer.{AtEnd, after, flush_to_lem, flush_to_ok, Wrote, write_entry-Wrote}
use potatodb.Wal.Log
use potatodb.Wal.Log.{recover, replay}
use potatodb.Wal.Torn.{whole, encode_log, encode_log-append}
use potatodb.Wal.Crash.{recover-take}

module _ (crc : Hasher) where
  -- File and buffer together hold the bytes of `es`.
  pub record Holds (w : Wal) (es : List WalEntry) : Type 0 where
    pub bytes : w.file ++ w.buffer ≡ encode_log crc es
    pub at_end : AtEnd w

sync_data_lem : (d : Device) (w : Wal) → after (sync_data d w) ≡ w
unfolding sync_data
sync_data_lem d w = ground arith

sync_data_ok : (d : Device) (w w' : Wal) (u : Unit {0}) → sync_data d w ≡ ok u w' → w' ≡ w
unfolding sync_data
sync_data_ok d w w' u h = ground arith

pub Io-cases {ℓ} :
    {A : Type ℓ} (m : Io A) → ((a : A) × (w : Wal) × (m ≡ ok a w)) ⊎ ((w : Wal) × (m ≡ err w))
Io-cases (ok a w) = inl (a, w, refl)
Io-cases (err w) = inr (w, refl)

module _ (crc : Hasher) where
  -- The bytes with another entry.
  added :
      (w : Wal) (es : List WalEntry) (e : WalEntry)
      → Holds crc w es
      → w.file ++ (w.buffer ++ encode_entry crc e) ≡ encode_log crc (es ++ e ∷ [])
  added w es e h =
      sym (append_assoc w.file w.buffer (encode_entry crc e))
      ∙ ap (λ t. t ++ encode_entry crc e) h.bytes
      ∙ sym (
          encode_log-append crc es (e ∷ [])
          ∙ ap (λ t. encode_log crc es ++ t) (unfold encode_log in append-nil (encode_entry crc e)))

  pub flush-Holds :
      (d : Device) (w : Wal) (es : List WalEntry)
      → Holds crc w es
      → Holds crc (after (flush d w)) es
  unfolding flush
  flush-Holds d w es h =
      let (bytes, end) = flush_to_lem d.written w h.at_end in
      record { bytes = bytes ∙ h.bytes; at_end = end }

  synced-Holds :
      (d : Device) (m : Io (Unit {0})) (es : List WalEntry)
      → Holds crc (after m) es
      → Holds crc (after (m >>= λ _ w1. sync_data d w1)) es
  synced-Holds d (ok a w) es h = rw (sync_data_lem d w) h
  synced-Holds d (err w) es h = h

  pub flush_ok : (d : Device) (w w' : Wal) (u : Unit {0}) → flush d w ≡ ok u w' → w'.buffer ≡ []
  unfolding flush
  flush_ok d w w' u h = flush_to_ok d.written w w' u h

  append_buffer :
      (d : Device) (w w' : Wal) (u : Unit {0}) (m : Io (Unit {0}))
      → flush d w ≡ m
      → (m >>= λ _ w1. sync_data d w1) ≡ ok u w'
      → w'.buffer ≡ []
  append_buffer d w w' u (ok a w1) f h =
      ap (λ (x : Wal). x.buffer) (sync_data_ok d w1 w' u h) ∙ flush_ok d w w1 a f
  append_buffer d w w' u (err w1) f h = cc

  appended_buffer :
      (d : Device) (w' : Wal) (m : Io (Unit {0}))
      → (m >>= λ _ w1. (flush d w1 >>= λ _ w2. sync_data d w2)) ≡ ok tt w'
      → w'.buffer ≡ []
  appended_buffer d w' (ok a w1) h = append_buffer d w1 w' tt _ refl h
  appended_buffer d w' (err w1) h = cc

  -- After a successful append nothing is left in the buffer.
  pub append_ok :
      (d : Device) (w w' : Wal) (e : WalEntry) → append crc d e w ≡ ok tt w' → w'.buffer ≡ []
  unfolding append
  append_ok d w w' e h = appended_buffer d w' (write_entry crc d e w) h

  -- What file and buffer hold are the first bytes of `es`.
  abbrev pub Front : Wal → List WalEntry → Type 0
  Front w es = (lost : List ℕ) × (w.file ++ (w.buffer ++ lost) ≡ encode_log crc es)

  pub Holds-Front : (w : Wal) (es : List WalEntry) → Holds crc w es → Front w es
  Holds-Front w es h = ([], ap (λ t. w.file ++ t) (append-nil w.buffer) ∙ h.bytes)

  Wrote-Holds :
      (w w1 : Wal) (u : Unit {0}) (es : List WalEntry) (e : WalEntry)
      → Wrote w (encode_entry crc e) (ok u w1)
      → Holds crc w es
      → Holds crc w1 (es ++ e ∷ [])
  Wrote-Holds w w1 u es e (bytes, end) h = record { bytes = bytes ∙ added w es e h; at_end = end }

  -- Handing an entry to the writer, and what is done when that returns `Ok` and keeps the entries.
  then-Front :
      (w : Wal) (es : List WalEntry) (e : WalEntry) (m : Io (Unit {0})) (f : Wal → Io (Unit {0}))
      → Wrote w (encode_entry crc e) m
      → Holds crc w es
      → ((w1 : Wal) → Holds crc w1 (es ++ e ∷ []) → Holds crc (after (f w1)) (es ++ e ∷ []))
      → Front (after (m >>= λ _ w1. f w1)) (es ++ e ∷ [])
  then-Front w es e (ok u w1) f r h keep =
      Holds-Front (after (f w1)) (es ++ e ∷ []) (keep w1 (Wrote-Holds w w1 u es e r h))
  then-Front w es e (err w1) f (rest, bytes, end) h keep = (rest, bytes ∙ added w es e h)

  then-Holds :
      (w w0 : Wal) (es : List WalEntry) (e : WalEntry) (m : Io (Unit {0})) (f : Wal → Io (Unit {0}))
      → Wrote w (encode_entry crc e) m
      → m ≡ ok tt w0
      → Holds crc w es
      → ((w1 : Wal) → Holds crc w1 (es ++ e ∷ []) → Holds crc (after (f w1)) (es ++ e ∷ []))
      → Holds crc (after (m >>= λ _ w1. f w1)) (es ++ e ∷ [])
  then-Holds w w0 es e (ok u w1) f r q h keep = keep w1 (Wrote-Holds w w1 u es e r h)
  then-Holds w w0 es e (err w1) f r q h keep = cc

  flushed_synced :
      (d : Device) (es : List WalEntry) (w1 : Wal)
      → Holds crc w1 es
      → Holds crc (after (flush d w1 >>= λ _ w2. sync_data d w2)) es
  flushed_synced d es w1 h = synced-Holds d (flush d w1) es (flush-Holds d w1 es h)

  -- An append whose entry is handed to the writer leaves file and buffer with the entry added.
  pub append_no_sync-Holds :
      (d : Device) (w w0 : Wal) (es : List WalEntry) (e : WalEntry)
      → write_entry crc d e w ≡ ok tt w0
      → Holds crc w es
      → Holds crc (after (append_no_sync crc d e w)) (es ++ e ∷ [])
  unfolding append_no_sync
  append_no_sync-Holds d w w0 es e q h =
      then-Holds w w0 es e (write_entry crc d e w) (flush d) (write_entry-Wrote crc d w e h.at_end)
        q h (λ w1 k. flush-Holds d w1 (es ++ e ∷ []) k)

  pub append-Holds :
      (d : Device) (w w0 : Wal) (es : List WalEntry) (e : WalEntry)
      → write_entry crc d e w ≡ ok tt w0
      → Holds crc w es
      → Holds crc (after (append crc d e w)) (es ++ e ∷ [])
  unfolding append
  append-Holds d w w0 es e q h =
      then-Holds w w0 es e (write_entry crc d e w) (λ w1. flush d w1 >>= λ _ w2. sync_data d w2)
        (write_entry-Wrote crc d w e h.at_end) q h (λ w1 k. flushed_synced d (es ++ e ∷ []) w1 k)

  -- Whatever the device does, the last append leaves the first bytes.
  pub append_no_sync-Front :
      (d : Device) (w : Wal) (es : List WalEntry) (e : WalEntry)
      → Holds crc w es
      → Front (after (append_no_sync crc d e w)) (es ++ e ∷ [])
  unfolding append_no_sync
  append_no_sync-Front d w es e h =
      then-Front w es e (write_entry crc d e w) (flush d) (write_entry-Wrote crc d w e h.at_end) h
        (λ w1 k. flush-Holds d w1 (es ++ e ∷ []) k)

  pub append-Front :
      (d : Device) (w : Wal) (es : List WalEntry) (e : WalEntry)
      → Holds crc w es
      → Front (after (append crc d e w)) (es ++ e ∷ [])
  unfolding append
  append-Front d w es e h =
      then-Front w es e (write_entry crc d e w) (λ w1. flush d w1 >>= λ _ w2. sync_data d w2)
        (write_entry-Wrote crc d w e h.at_end) h (λ w1 k. flushed_synced d (es ++ e ∷ []) w1 k)

  -- A crash now leaves the bytes in the file.
  pub recover-Front :
      (w : Wal) (es : List WalEntry)
      → Front w es
      → All IsValid es
      → recover crc (some w.file) ≡ Log.ok (replay (whole (length w.file) es))
  recover-Front w es (lost, bytes) vs =
      let front : take (length w.file) (encode_log crc es) ≡ w.file =
        ap (take (length w.file)) (sym bytes)
        ∙ take-append (length w.file) w.file (w.buffer ++ lost) refl in
      ap (λ bytes. recover crc (some bytes)) (sym front) ∙ recover-take crc (length w.file) es vs
