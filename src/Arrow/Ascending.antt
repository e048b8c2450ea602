-- ===== src/Arrow/Ascending.antt =====
-- Names of numbers below a million: they sort as the numbers do, and are read back.
use potatodb.Prelude.{
  ℕ, suc, ◌+◌, ◌-◌, ◌*◌, ◌/◌, ◌%◌, ◌^◌, ◌<◌, ◌≡◌, ◌⊎◌, inl, inr, refl, sym, ap, ◌∙◌, subst, true,
  false, some, List, [], ◌∷◌, ◌++◌, is_empty, ltb, lt→ltb, ltb→lt, arith, Bool-cases,
}
use potatodb.Sql.Text.{codes}
use potatodb.Sql.Parameters.{is_ascii_digit, number_of}
use potatodb.Arrow.Name.{
  zero_padded, file_name, split_at_dot, file_stem, is_arrow, bytes_eq, all_digits, parse_unsigned,
  parse_u64, le_bytes,
}

-- `s` and `t` agree up to a place where `s` has the smaller byte.
abbrev pub Less : List ℕ → List ℕ → Type 0
Less [] t = ⊥
Less (a ∷ s) [] = ⊥
Less (a ∷ s) (b ∷ t) = (a < b) ⊎ ((a ≡ b) × Less s t)

Less-append : (s t u v : List ℕ) → Less s t → Less (s ++ u) (t ++ v)
Less-append [] t u v h = absurd h
Less-append (a ∷ s) [] u v h = absurd h
Less-append (a ∷ s) (b ∷ t) u v (inl h) = inl h
Less-append (a ∷ s) (b ∷ t) u v (inr (e, h)) = inr (e, Less-append s t u v h)

Less-append_same : (s u v : List ℕ) → Less u v → Less (s ++ u) (s ++ v)
Less-append_same [] u v h = h
Less-append_same (a ∷ s) u v h = inr (refl, Less-append_same s u v h)

pub le_bytes-Less : (s t : List ℕ) → Less s t → (le_bytes s t ≡ true) × (le_bytes t s ≡ false)
unfolding le_bytes
le_bytes-Less [] t h = absurd h
le_bytes-Less (a ∷ s) [] h = absurd h
le_bytes-Less (a ∷ s) (b ∷ t) (inl h) = ground arith
le_bytes-Less (a ∷ s) (b ∷ t) (inr (e, h)) = ground (arith, le_bytes-Less s t h)

-- What is shown of the numbers below `bound`, written with at least `w` digits.
record Good (fuel w bound : ℕ) : Type 0 where
  order : (a b : ℕ) → a < b → b < bound → Less (zero_padded fuel w a) (zero_padded fuel w b)
  written : (a : ℕ) → a < bound → number_of 0 (zero_padded fuel w a) ≡ a
  digit : (a : ℕ) → a < bound → all_digits (zero_padded fuel w a) ≡ true

one_digit : (fuel : ℕ) → Good (suc fuel) 1 10
unfolding zero_padded number_of all_digits is_ascii_digit
one_digit fuel = record {
  order = λ a b h k. rw (lt→ltb a 10 (omega arith), lt→ltb b 10 k) (inl (omega arith));
  written = λ a h. rw (lt→ltb a 10 h) (omega arith);
  digit = λ a h. ground arith;
}

number_of-append :
    (acc : ℕ) (s : List ℕ) (d : ℕ) → number_of acc (s ++ d ∷ []) ≡ 10 * number_of acc s + (d - b'0')
unfolding number_of
number_of-append acc [] d = refl
number_of-append acc (c ∷ s) d = number_of-append (10 * acc + (c - b'0')) s d

all_digits-append :
    (s : List ℕ) (d : ℕ)
    → all_digits s ≡ true
    → is_ascii_digit d ≡ true
    → all_digits (s ++ d ∷ []) ≡ true
unfolding all_digits
all_digits-append [] d h k = ground arith
all_digits-append (c ∷ s) d h k = ground (arith, all_digits-append s d)

more :
    (fuel w n : ℕ)
    → zero_padded (suc fuel) (suc (suc w)) n
      ≡ zero_padded fuel (suc w) (n / 10) ++ (b'0' + n % 10) ∷ []
unfolding zero_padded
more fuel w n = ground arith

one_more : (fuel w bound : ℕ) → Good fuel (suc w) bound → Good (suc fuel) (suc (suc w)) (10 * bound)
unfolding is_ascii_digit
one_more fuel w bound g = record {
  order = λ a b h k. rw (more fuel w a, more fuel w b) (step a b h k);
  written = λ a h.
      rw
        (
          more fuel w a,
          number_of-append 0 (zero_padded fuel (suc w) (a / 10)) (b'0' + a % 10),
          g.written (a / 10) (omega arith),
        )
        (omega arith);
  digit = λ a h. rw (more fuel w a) (
      all_digits-append (zero_padded fuel (suc w) (a / 10)) (b'0' + a % 10)
        (g.digit (a / 10) (omega arith)) (ground arith));
}
  where
    step :
        (a b : ℕ)
        → a < b
        → b < 10 * bound
        → Less
            (zero_padded fuel (suc w) (a / 10) ++ (b'0' + a % 10) ∷ [])
            (zero_padded fuel (suc w) (b / 10) ++ (b'0' + b % 10) ∷ [])
    step a b h k = elim (Bool-cases (ltb (a / 10) (b / 10))) [
      | inl e ↦
          Less-append (zero_padded fuel (suc w) (a / 10)) (zero_padded fuel (suc w) (b / 10)) _ _
            (g.order (a / 10) (b / 10) (ltb→lt _ _ e) (omega arith))
      | inr e ↦
          let same : b / 10 ≡ a / 10 = ground arith in
          rw same (Less-append_same (zero_padded fuel (suc w) (a / 10)) _ _ (inl (omega arith)))
    ]

six_digits : Good 20 6 1000000
six_digits =
    one_more 19 4 100000 (
      one_more 18 3 10000
        (one_more 17 2 1000 (one_more 16 1 100 (one_more 15 0 10 (one_digit 14)))))

bytes_eq-Less : (s t : List ℕ) → Less s t → bytes_eq s t ≡ false
unfolding bytes_eq
bytes_eq-Less [] t h = absurd h
bytes_eq-Less (a ∷ s) [] h = refl
bytes_eq-Less (a ∷ s) (b ∷ t) (inl h) = ground arith
bytes_eq-Less (a ∷ s) (b ∷ t) (inr (e, h)) = ground (arith, bytes_eq-Less s t h)

module _ (a b : ℕ) (h : a < b) (k : b < 1000000) where
  -- Files sort by their numbers.
  pub le_bytes-file_name :
      (le_bytes (file_name a) (file_name b) ≡ true) × (le_bytes (file_name b) (file_name a) ≡ false)
  unfolding file_name
  le_bytes-file_name =
      le_bytes-Less (file_name a) (file_name b)
        (Less-append (zero_padded 20 6 a) (zero_padded 20 6 b) _ _ (six_digits.order a b h k))

  pub bytes_eq-file_name : bytes_eq (file_name a) (file_name b) ≡ false
  unfolding file_name
  bytes_eq-file_name =
      bytes_eq-Less (file_name a) (file_name b)
        (Less-append (zero_padded 20 6 a) (zero_padded 20 6 b) _ _ (six_digits.order a b h k))

split_at_dot-suffix :
    (s : List ℕ)
    → all_digits s ≡ true
    → split_at_dot (s ++ codes ".arrow") ≡ some (s, codes "arrow")
unfolding split_at_dot all_digits
split_at_dot-suffix [] h = refl
split_at_dot-suffix (c ∷ s) h = ground (arith, split_at_dot-suffix s)

nonempty : (fuel w n : ℕ) → is_empty (zero_padded (suc fuel) w n) ≡ false
unfolding zero_padded
nonempty fuel w n = ground (arith, pushed (zero_padded fuel (w - 1) (n / 10)) (b'0' + n % 10))
  where
    pushed : (s : List ℕ) (d : ℕ) → is_empty (s ++ d ∷ []) ≡ false
    pushed [] d = refl
    pushed (c ∷ s) d = refl

is_arrow-suffix :
    (s : List ℕ) → all_digits s ≡ true → is_empty s ≡ false → is_arrow (s ++ codes ".arrow") ≡ true
unfolding is_arrow bytes_eq
is_arrow-suffix s h k = ground (arith, split_at_dot-suffix s h, k)

parse_u64-suffix :
    (s : List ℕ)
    → all_digits s ≡ true
    → is_empty s ≡ false
    → number_of 0 s < 1000000
    → parse_u64 (file_stem (s ++ codes ".arrow")) ≡ some (number_of 0 s)
unfolding file_stem parse_u64 parse_unsigned
parse_u64-suffix [] h k n = cc
parse_u64-suffix (c ∷ s) h k n =
    rw (split_at_dot-suffix (c ∷ s) h, h, lt→ltb (number_of 0 (c ∷ s)) (2 ^ 64) (omega arith))
      (ground (arith, h))

-- A file of the log is recognised, and its number read back.
pub is_arrow-file_name : (n : ℕ) → n < 1000000 → is_arrow (file_name n) ≡ true
unfolding file_name
is_arrow-file_name n h =
    is_arrow-suffix (zero_padded 20 6 n) (six_digits.digit n h) (nonempty 19 6 n)

pub parse_u64-file_name : (n : ℕ) → n < 1000000 → parse_u64 (file_stem (file_name n)) ≡ some n
unfolding file_name
parse_u64-file_name n h =
    let value = six_digits.written n h in
    parse_u64-suffix (zero_padded 20 6 n) (six_digits.digit n h) (nonempty 19 6 n)
      (subst (λ k. k < 1000000) (sym value) h)
    ∙ ap (λ k. some k) value
