-- ===== src/Engine/Recorded.antt =====
-- The log of changes through starts of the process.
use potatodb.Prelude.{
  ℕ, suc, ◌-◌, ◌≡◌, refl, sym, ap, ◌∙◌, Bool, true, false, ◌&&◌, Option, none, some, List, [], ◌∷◌,
  ◌++◌, append-nil, append_assoc, All, All-append, length, length-append, drop, drop_all,
  if◌then◌else◌, unwrap_or, ltb, ltb→lt, lt→ltb, ==_refl, Bool-cases, inl, inr, arith,
}
use potatodb.Prelude.Utf8.{from_utf8_lossy-IsUtf8, IsUtf8, IsScalar, encode_char, encode_text}
use potatodb.Arrow.Name.{bytes_eq}
use potatodb.Engine.Cdc.{
  CdcEvent, IsEvent, IsPrinted, SerdeJson, Cdc, pop_excess, strip_return, lines, read_to_string,
  event_line, record_cdc_event, event_of, events_of, load_cdc_log,
}

-- A change is recorded, in the file too if it opens; or the process starts again.
pub data Op : Type 0 where
  recorded : Bool → CdcEvent → Op
  restarted : ℕ → Op

abbrev pub IsOp : Op → Type 0
IsOp (recorded opened e) = IsEvent e
IsOp (restarted capacity) = Unit

-- The last `n` events.
abbrev pub last : ℕ → List CdcEvent → List CdcEvent
last n es = drop (length es - n) es

-- All events since the start, those before it that the file has included, and those of the file.
abbrev pub history : Bool → List Op → List CdcEvent × List CdcEvent → List CdcEvent
history is_local [] (known, stored) = known
history is_local (recorded opened e ∷ ops) (known, stored) =
    history is_local ops (known ++ e ∷ [], if is_local && opened then stored ++ e ∷ [] else stored)
history is_local (restarted capacity ∷ ops) (known, stored) = history is_local ops (stored, stored)

pop_excess_longer :
    (n : ℕ) (e : CdcEvent) (es : List CdcEvent)
    → ltb n (length (e ∷ es)) ≡ true
    → pop_excess n (e ∷ es) ≡ pop_excess n es
unfolding pop_excess
pop_excess_longer n e es q = rw (q, pop_excess) refl

pop_excess_short :
    (n : ℕ) (e : CdcEvent) (es : List CdcEvent)
    → ltb n (length (e ∷ es)) ≡ false
    → pop_excess n (e ∷ es) ≡ e ∷ es
unfolding pop_excess
pop_excess_short n e es q = rw (q, pop_excess) refl

pop_excess-last : (n : ℕ) (es : List CdcEvent) → pop_excess n es ≡ last n es
unfolding pop_excess
pop_excess-last n [] = sym (drop_all (0 - n) [] (omega arith))
pop_excess-last n (e ∷ es) = elim (Bool-cases (ltb n (length (e ∷ es)))) [
  | inl q ↦
      pop_excess_longer n e es q
      ∙ pop_excess-last n es
      ∙ ap (λ k. drop k (e ∷ es)) {x = suc (length es - n)}
          (omega (arith, ltb→lt n (length (e ∷ es)) q))
  | inr q ↦ pop_excess_short n e es q ∙ ap (λ k. drop k (e ∷ es)) {x = 0} (ground (arith, q))
]

pop_excess-append :
    (n : ℕ) (es new : List CdcEvent)
    → pop_excess n (pop_excess n es ++ new) ≡ pop_excess n (es ++ new)
unfolding pop_excess
pop_excess-append n [] new = refl
pop_excess-append n (e ∷ es) new = elim (Bool-cases (ltb n (length (e ∷ es)))) [
  | inl q ↦
      let longer : ltb n (length (e ∷ es ++ new)) ≡ true =
        lt→ltb n (length (e ∷ es ++ new))
          (omega (arith, length-append es new, ltb→lt n (length (e ∷ es)) q)) in
      ap (λ r. pop_excess n (r ++ new)) (pop_excess_longer n e es q)
      ∙ pop_excess-append n es new
      ∙ sym (pop_excess_longer n e (es ++ new) longer)
  | inr q ↦ ap (λ r. pop_excess n (r ++ new)) (pop_excess_short n e es q)
]

strip_return-IsPrinted : (line : List ℕ) → All IsPrinted line → strip_return line ≡ line
unfolding strip_return
strip_return-IsPrinted [] h = refl
strip_return-IsPrinted (b ∷ []) h = rw h.0.1 refl
strip_return-IsPrinted (b ∷ c ∷ bs) h = ap (λ t. b ∷ t) (strip_return-IsPrinted (c ∷ bs) h.1)

lines-append :
    (line xs rest : List ℕ)
    → All IsPrinted line
    → All IsPrinted xs
    → lines line (xs ++ 10 ∷ rest) ≡ (line ++ xs) ∷ lines [] rest
unfolding lines
lines-append line [] rest h k =
    ap (λ l. l ∷ lines [] rest) (strip_return-IsPrinted line h ∙ sym (append-nil line))
lines-append line (x ∷ xs) rest h k =
    rw (k.0.0, lines)
      (lines-append (line ++ x ∷ []) xs rest (All-append IsPrinted line (x ∷ []) h (k.0, tt)) k.1)
    ∙ ap (λ l. l ∷ lines [] rest) (append_assoc line (x ∷ []) xs)

bytes_eq_refl : (bytes : List ℕ) → bytes_eq bytes bytes ≡ true
unfolding bytes_eq
bytes_eq_refl [] = refl
bytes_eq_refl (b ∷ bs) = rw (==_refl b, bytes_eq_refl bs) refl

encode_text-append : (cs ds : List ℕ) → encode_text (cs ++ ds) ≡ encode_text cs ++ encode_text ds
unfolding encode_text
encode_text-append [] ds = refl
encode_text-append (c ∷ cs) ds =
    ap (λ t. encode_char c ++ t) (encode_text-append cs ds)
    ∙ sym (append_assoc (encode_char c) (encode_text cs) (encode_text ds))

IsUtf8-append : (a b : List ℕ) → IsUtf8 a → IsUtf8 b → IsUtf8 (a ++ b)
IsUtf8-append a b (cs, h, e) (ds, k, f) = (
  cs ++ ds,
  All-append IsScalar cs ds h k,
  encode_text-append cs ds ∙ ap (λ x. x ++ encode_text ds) e ∙ ap (λ x. a ++ x) f,
)

module _ (j : SerdeJson) where
  abbrev pub run : List Op → Cdc → Cdc
  run [] c = c
  run (recorded opened e ∷ ops) c = run ops (record_cdc_event j opened none e c)
  run (restarted capacity ∷ ops) c = run ops (load_cdc_log j capacity c.is_local c.file)

  -- The lines of some events.
  abbrev file_of : List CdcEvent → List ℕ
  file_of [] = []
  file_of (e ∷ es) = event_line j e ++ file_of es

  file_of-append : (es new : List CdcEvent) → file_of (es ++ new) ≡ file_of es ++ file_of new
  file_of-append [] new = refl
  file_of-append (e ∷ es) new =
      ap (λ t. event_line j e ++ t) (file_of-append es new)
      ∙ sym (append_assoc (event_line j e) (file_of es) (file_of new))

  file_of-IsUtf8 : (es : List CdcEvent) → IsUtf8 (file_of es)
  unfolding event_line
  file_of-IsUtf8 [] = ([], tt, unfold encode_text in refl)
  file_of-IsUtf8 (e ∷ es) =
      IsUtf8-append (event_line j e) (file_of es)
        (IsUtf8-append (j.to_string (j.object e.table e.op e.timestamp_ms e.rows)) (10 ∷ [])
          (j.text (j.object e.table e.op e.timestamp_ms e.rows))
          (10 ∷ [], (inl (omega arith), tt), unfold encode_text encode_char in refl))
        (file_of-IsUtf8 es)

  event_of-object :
      (e : CdcEvent) → IsEvent e → event_of j (j.object e.table e.op e.timestamp_ms e.rows) ≡ e
  unfolding event_of
  event_of-object e (m, n) =
      rw
        (
          j.as_str-table e.table e.op e.timestamp_ms e.rows,
          j.as_str-op e.table e.op e.timestamp_ms e.rows,
          j.as_i64-object e.table e.op e.timestamp_ms e.rows m,
          j.as_u64-object e.table e.op e.timestamp_ms e.rows n,
        )
        refl

  -- What is printed is read back.
  events_of-lines : (es : List CdcEvent) → All IsEvent es → events_of j (lines [] (file_of es)) ≡ es
  unfolding events_of event_line
  events_of-lines [] h = unfold lines in refl
  events_of-lines (e ∷ es) h =
      let v = j.object e.table e.op e.timestamp_ms e.rows in
      ap (λ b. events_of j (lines [] b)) (append_assoc (j.to_string v) (10 ∷ []) (file_of es))
      ∙ ap (λ ls. events_of j ls) (lines-append [] (j.to_string v) (file_of es) tt (j.printed v))
      ∙ rw (j.from-to v, events_of, event_of-object e h.0, events_of-lines es h.1) refl

  read_to_string-file_of :
      (es : List CdcEvent) → read_to_string (some (file_of es)) ≡ some (file_of es)
  unfolding read_to_string
  read_to_string-file_of es =
      rw (from_utf8_lossy-IsUtf8 (file_of es) (file_of-IsUtf8 es), bytes_eq_refl (file_of es)) refl

  -- The file has the lines of the stored events, and is not there only if there are none.
  abbrev IsFile : Option (List ℕ) → List CdcEvent → Type 0
  IsFile none stored = stored ≡ []
  IsFile (some bytes) stored = bytes ≡ file_of stored

  loaded :
      (capacity : ℕ) (file : Option (List ℕ)) (stored : List CdcEvent)
      → All IsEvent stored
      → IsFile file stored
      → (load_cdc_log j capacity true file).cdc_log ≡ pop_excess capacity stored
  unfolding load_cdc_log read_to_string
  loaded capacity none stored h k = ap (pop_excess capacity) (sym k)
  loaded capacity (some bytes) stored h k =
      rw (k, read_to_string-file_of stored, events_of-lines stored h) refl

  abbrev IsKept : Cdc → List CdcEvent × List CdcEvent → Type 0
  IsKept c (known, stored) =
      (c.cdc_log ≡ pop_excess c.cdc_capacity known)
      × IsFile c.file stored
      × All IsEvent stored
      × (c.is_local ≡ false → stored ≡ [])

  appended :
      (writes : Bool) (e : CdcEvent) (file : Option (List ℕ)) (stored : List CdcEvent)
      → IsFile file stored
      → IsFile
          (if writes then some (unwrap_or file [] ++ event_line j e) else file)
          (if writes then stored ++ e ∷ [] else stored)
  appended false e file stored k = k
  appended true e none stored k = rw k (sym (append-nil (event_line j e)))
  appended true e (some bytes) stored k =
      ap (λ b. b ++ event_line j e) k
      ∙ ap (λ b. file_of stored ++ b) (sym (append-nil (event_line j e)))
      ∙ sym (file_of-append stored (e ∷ []))

  appended_events :
      (writes : Bool) (e : CdcEvent) (stored : List CdcEvent)
      → IsEvent e
      → All IsEvent stored
      → All IsEvent (if writes then stored ++ e ∷ [] else stored)
  appended_events false e stored v all = all
  appended_events true e stored v all = All-append IsEvent stored (e ∷ []) all (v, tt)

  recorded-IsKept :
      (opened : Bool) (e : CdcEvent) (c : Cdc) (known stored : List CdcEvent)
      → IsEvent e
      → IsKept c (known, stored)
      → IsKept
          (record_cdc_event j opened none e c)
          (known ++ e ∷ [], if c.is_local && opened then stored ++ e ∷ [] else stored)
  unfolding record_cdc_event
  recorded-IsKept opened e c known stored v (log, file, all, remote) = (
    ap (λ l. pop_excess c.cdc_capacity (l ++ e ∷ [])) log
        ∙ pop_excess-append c.cdc_capacity known (e ∷ []),
    appended (c.is_local && opened) e c.file stored file,
    appended_events (c.is_local && opened) e stored v all,
    λ q. rw q (remote q),
  )

  restarted-IsKept :
      (capacity : ℕ) (c : Cdc) (known stored : List CdcEvent)
      → IsKept c (known, stored)
      → IsKept (load_cdc_log j capacity c.is_local c.file) (stored, stored)
  unfolding load_cdc_log
  restarted-IsKept capacity c known stored (log, file, all, remote) = (
    elim (Bool-cases c.is_local) [
      | inl q ↦ rw q (loaded capacity c.file stored all file)
      | inr q ↦ rw (q, remote q) refl
    ],
    file,
    all,
    remote,
  )

  run-IsKept :
      (ops : List Op) (c : Cdc) (known stored : List CdcEvent)
      → All IsOp ops
      → IsKept c (known, stored)
      → (run ops c).cdc_log ≡ last (run ops c).cdc_capacity (history c.is_local ops (known, stored))
  unfolding record_cdc_event load_cdc_log
  run-IsKept [] c known stored h (log, file, all, remote) =
      log ∙ pop_excess-last c.cdc_capacity known
  run-IsKept (recorded opened e ∷ ops) c known stored h k =
      run-IsKept ops (record_cdc_event j opened none e c) (known ++ e ∷ [])
        (if c.is_local && opened then stored ++ e ∷ [] else stored) h.1
        (recorded-IsKept opened e c known stored h.0 k)
  run-IsKept (restarted capacity ∷ ops) c known stored h k =
      run-IsKept ops (load_cdc_log j capacity c.is_local c.file) stored stored h.1
        (restarted-IsKept capacity c known stored k)

  -- From a start without a file: whatever changes are recorded, whether or not the file opens for
  -- each, while no write to it fails, and however often the process starts again, with whatever
  -- capacities, the log has the last events, as many as its capacity, of those since the last start
  -- and those before it that are in the file.
  pub run-last :
      (ops : List Op) (capacity : ℕ) (is_local : Bool)
      → All IsOp ops
      → (run ops (load_cdc_log j capacity is_local none)).cdc_log
        ≡ last
            (run ops (load_cdc_log j capacity is_local none)).cdc_capacity
            (history is_local ops ([], []))
  unfolding load_cdc_log read_to_string
  run-last ops capacity is_local h =
      run-IsKept ops (load_cdc_log j capacity is_local none) [] [] h
        (elim is_local as (λ b. IsKept (load_cdc_log j capacity b none) ([], [])) [
          | true ↦ (refl, refl, tt, λ q. refl)
          | false ↦ (refl, refl, tt, λ q. refl)
        ])
