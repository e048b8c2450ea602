-- ===== src/Catalog/Sequences.antt =====
-- `next_sequence_value`: the values of a sequence and its bounds.
use potatodb.Prelude.{String, ◌≡◌, refl, ap, ◌∙◌, ◌⊎◌, inl, inr, Bool, true, false, arith}
use potatodb.Prelude.{Option, none, some, if◌then◌else◌, Option-cases, str_eq_iff}
use potatodb.Prelude.Int.{
  ℤ, pos, ◌+ℤ◌, ◌≤ℤ◌, ltb_ℤ, IsI64, i64_max, saturating_add, saturating_add_exact,
}
use potatodb.Prelude.HashMap.{get, insert, get-insert}
use potatodb.Catalog.Types.{SequenceDef}
use potatodb.Catalog.State.{Catalog, save}

pub data NextValue : Type 0 where
  value : ℤ → NextValue
  no_such_sequence at_minimum at_maximum : NextValue

-- `if let Some(min) = seq.min_value && advanced < min`
abbrev pub below : Option ℤ → ℤ → Bool
below none x = false
below (some min) x = ltb_ℤ x min

abbrev pub above : Option ℤ → ℤ → Bool
above none x = false
above (some max) x = ltb_ℤ max x

-- What a sequence answers, and its state afterwards.
unfoldable pub advance : SequenceDef → NextValue × SequenceDef
advance seq =
    let advanced = saturating_add seq.current_value seq.increment in
    if below seq.min_value advanced
    then (at_minimum, seq)
    else if above seq.max_value advanced
    then (at_maximum, seq)
    else (value seq.current_value, record seq { current_value = advanced })

-- An error is returned before anything is changed.
unfoldable pub settle : String → NextValue × SequenceDef → Catalog → NextValue × Catalog
settle name (value v, seq) c =
    (value v, save (record c { sequences = insert c.sequences name seq }))
settle name (no_such_sequence, seq) c = (no_such_sequence, c)
settle name (at_minimum, seq) c = (at_minimum, c)
settle name (at_maximum, seq) c = (at_maximum, c)

unfoldable pub next_sequence_value : String → Catalog → NextValue × Catalog
unfolding settle
next_sequence_value name c = elim (get c.sequences name) [
  | none ↦ (no_such_sequence, c)
  | some seq ↦ settle name (advance seq) c
]

abbrev pub AtLeast : Option ℤ → ℤ → Type 0
AtLeast none x = Unit
AtLeast (some min) x = min ≤ℤ x

abbrev pub AtMost : Option ℤ → ℤ → Type 0
AtMost none x = Unit
AtMost (some max) x = x ≤ℤ max

-- A value lies within the bounds of its sequence.
abbrev pub InBounds : SequenceDef → ℤ → Type 0
InBounds seq x = AtLeast seq.min_value x × AtMost seq.max_value x

not_below : (o : Option ℤ) (x : ℤ) → below o x ≡ false → AtLeast o x
not_below none x h = tt
not_below (some min) x h = ground (arith, h)

not_above : (o : Option ℤ) (x : ℤ) → above o x ≡ false → AtMost o x
not_above none x h = tt
not_above (some max) x h = ground (arith, h)

advance_cases :
    (seq : SequenceDef) (v : ℤ)
    → IsI64 (seq.current_value +ℤ seq.increment)
    → (advance seq).0 ≡ value v
    → (v ≡ seq.current_value)
      × ((advance seq).1 ≡ record seq { current_value = seq.current_value +ℤ seq.increment })
      × (below seq.min_value (seq.current_value +ℤ seq.increment) ≡ false)
      × (above seq.max_value (seq.current_value +ℤ seq.increment) ≡ false)
unfolding advance
advance_cases seq v range h = ground (arith, saturating_add_exact seq.current_value seq.increment)

-- A sequence within its bounds hands out its current value, and stays within them one increment
-- further on, as long as the sum is an `i64`.
pub advance_lem :
    (seq : SequenceDef) (v : ℤ)
    → InBounds seq seq.current_value
    → IsI64 (seq.current_value +ℤ seq.increment)
    → (advance seq).0 ≡ value v
    → (v ≡ seq.current_value)
      × ((advance seq).1 ≡ record seq { current_value = seq.current_value +ℤ seq.increment })
      × InBounds seq (seq.current_value +ℤ seq.increment)
unfolding advance
advance_lem seq v here range h =
    let (current, next, low, high) = advance_cases seq v range h in
    (current, next, (not_below seq.min_value _ low, not_above seq.max_value _ high))

pub advance_name : (seq : SequenceDef) → (advance seq).1.name ≡ seq.name
unfolding advance
advance_name seq = ground arith

pub next_sequence_value_missing :
    (name : String) (c : Catalog)
    → get c.sequences name ≡ none
    → next_sequence_value name c ≡ (no_such_sequence, c)
unfolding next_sequence_value
next_sequence_value_missing name c h = ground (arith, h)

pub next_sequence_value_found :
    (name : String) (c : Catalog) (seq : SequenceDef)
    → get c.sequences name ≡ some seq
    → next_sequence_value name c ≡ settle name (advance seq) c
unfolding next_sequence_value
next_sequence_value_found name c seq h = ground (arith, h)

settle_value :
    (name : String) (r : NextValue × SequenceDef) (c : Catalog) (v : ℤ)
    → (settle name r c).0 ≡ value v
    → (r.0 ≡ value v) × (get (settle name r c).1.sequences name ≡ some r.1)
unfolding settle save
settle_value name (value x, seq) c v h =
    (h, ground (arith, get-insert c.sequences name name seq, str_eq_iff name name))
settle_value name (no_such_sequence, seq) c v h = cc
settle_value name (at_minimum, seq) c v h = cc
settle_value name (at_maximum, seq) c v h = cc

-- A successful `nextval` hands out the current value of the stored sequence, which lies within its
-- bounds, and stores the sequence one increment further on, within its bounds too.
pub next_sequence_value_lem :
    (name : String) (c : Catalog) (seq : SequenceDef) (v : ℤ)
    → get c.sequences name ≡ some seq
    → InBounds seq seq.current_value
    → IsI64 (seq.current_value +ℤ seq.increment)
    → (next_sequence_value name c).0 ≡ value v
    → (v ≡ seq.current_value)
      × InBounds seq v
      × (get (next_sequence_value name c).1.sequences name
          ≡ some (record seq { current_value = seq.current_value +ℤ seq.increment }))
      × InBounds seq (seq.current_value +ℤ seq.increment)
next_sequence_value_lem name c seq v found here range h =
    let step = next_sequence_value_found name c seq found in
    let (answer, stored) = settle_value name (advance seq) c v (rw step at h) in
    let (current, next, within) = advance_lem seq v here range answer in
    (current, rw current here, rw step (stored ∙ ap some next), within)

-- Two successful calls in a row on an ascending sequence hand out ascending values, as long as the
-- sums are `i64`s.
next_sequence_value_ascends :
    (name : String) (c : Catalog) (seq : SequenceDef) (v v' : ℤ)
    → get c.sequences name ≡ some seq
    → InBounds seq seq.current_value
    → IsI64 (seq.current_value +ℤ seq.increment)
    → IsI64 (seq.current_value +ℤ seq.increment +ℤ seq.increment)
    → pos 1 ≤ℤ seq.increment
    → (next_sequence_value name c).0 ≡ value v
    → (next_sequence_value name (next_sequence_value name c).1).0 ≡ value v'
    → ltb_ℤ v v' ≡ true
next_sequence_value_ascends name c seq v v' found here range range' up h h' =
    let (current, _, stored, within) = next_sequence_value_lem name c seq v found here range h in
    let (current', _, _, _) =
      next_sequence_value_lem name (next_sequence_value name c).1
        (record seq { current_value = seq.current_value +ℤ seq.increment }) v' stored within range'
        h' in
    rw (current, current') (unfold ◌+ℤ◌ in ground arith)

settle_cases :
    (name : String) (r : NextValue × SequenceDef) (c : Catalog)
    → ((v : ℤ) × ((settle name r c).0 ≡ value v)) ⊎ ((settle name r c).1 ≡ c)
unfolding settle
settle_cases name (value v, seq) c = inl (v, refl)
settle_cases name (no_such_sequence, seq) c = inr refl
settle_cases name (at_minimum, seq) c = inr refl
settle_cases name (at_maximum, seq) c = inr refl

-- `nextval` either hands out a value, or leaves the whole catalog as it is.
next_sequence_value_refused :
    (name : String) (c : Catalog)
    → ((v : ℤ) × ((next_sequence_value name c).0 ≡ value v)) ⊎ ((next_sequence_value name c).1 ≡ c)
next_sequence_value_refused name c = elim (Option-cases (get c.sequences name)) [
  | inl missing ↦ inr (unfold next_sequence_value in ground (arith, missing))
  | inr (seq, found) ↦
      rw (next_sequence_value_found name c seq found) (settle_cases name (advance seq) c)
]

-- The sum saturates: an ascending sequence without a maximum that has come to the greatest `i64`
-- hands that value out and stays where it is, so that every later call hands it out again.
advance_saturates :
    (seq : SequenceDef)
    → seq.current_value ≡ i64_max
    → pos 1 ≤ℤ seq.increment
    → below seq.min_value i64_max ≡ false
    → seq.max_value ≡ none
    → advance seq ≡ (value i64_max, seq)
unfolding advance saturating_add
advance_saturates seq top up low unbounded = ground arith
