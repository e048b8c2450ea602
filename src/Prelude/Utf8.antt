-- ===== src/Prelude/Utf8.antt =====
-- UTF-8 text as its bytes, and `String::from_utf8_lossy`, which puts U+FFFD in place of each
-- maximal invalid part.
use Prim.Native.Nat.{ℕ, zero, suc, ◌+◌, ◌*◌, ◌/◌, ◌%◌, ◌≤◌, ◌<◌}
use mathlib.Core.Path.{◌≡◌, refl, sym, ap, ◌∙◌}
use mathlib.Core.Logic.{◌⊎◌, inl, inr}
use mathlib.Core.Bool.{◌&&◌}
use mathlib.Core.List.{List, [], ◌∷◌, ◌++◌}
use native.Mathlib.Omega.{arith}
use potatodb.Prelude.Tests.{ltb, leb, ◌==◌, if◌then◌else◌, Bool-cases}
use potatodb.Prelude.Lists.{All}

-- `tail pending lo hi more`: after the bytes `pending` the next byte must lie in lo..=hi, and
-- `more` continuation bytes follow it.
pub data Decoder : Type 0 where
  start : Decoder
  tail : List ℕ → ℕ → ℕ → ℕ → Decoder

abbrev replacement : List ℕ
replacement = 0xEF ∷ 0xBF ∷ 0xBD ∷ []

lead : ℕ → List ℕ × Decoder
lead b =
    if ltb b 0x80
    then (b ∷ [], start)
    else if ltb b 0xC2
    then (replacement, start)
    else if ltb b 0xE0
    then ([], tail (b ∷ []) 0x80 0xBF 0)
    else if b == 0xE0
    then ([], tail (b ∷ []) 0xA0 0xBF 1)
    else if b == 0xED
    then ([], tail (b ∷ []) 0x80 0x9F 1)
    else if ltb b 0xF0
    then ([], tail (b ∷ []) 0x80 0xBF 1)
    else if b == 0xF0
    then ([], tail (b ∷ []) 0x90 0xBF 2)
    else if ltb b 0xF4
    then ([], tail (b ∷ []) 0x80 0xBF 2)
    else if b == 0xF4
    then ([], tail (b ∷ []) 0x80 0x8F 2)
    else (replacement, start)

follow : List ℕ → ℕ → ℕ → List ℕ × Decoder
follow pending b zero = (pending ++ b ∷ [], start)
follow pending b (suc more) = ([], tail (pending ++ b ∷ []) 0x80 0xBF more)

feed : Decoder → ℕ → List ℕ × Decoder
feed start b = lead b
feed (tail pending lo hi more) b =
    if leb lo b && leb b hi then follow pending b more else (replacement ++ (lead b).0, (lead b).1)

decode : Decoder → List ℕ → List ℕ
decode start [] = []
decode (tail pending lo hi more) [] = replacement
decode d (b ∷ bs) = (feed d b).0 ++ decode (feed d b).1 bs

unfoldable pub from_utf8_lossy : List ℕ → List ℕ
unfolding lead follow feed decode
from_utf8_lossy = decode start

-- The bytes of a code point.
unfoldable pub encode_char : ℕ → List ℕ
encode_char c =
    if ltb c 0x80
    then c ∷ []
    else if ltb c 0x800
    then (0xC0 + c / 64) ∷ (0x80 + c % 64) ∷ []
    else if ltb c 0x10000
    then (0xE0 + c / 4096) ∷ (0x80 + c / 64 % 64) ∷ (0x80 + c % 64) ∷ []
    else (0xF0 + c / 262144) ∷ (0x80 + c / 4096 % 64) ∷ (0x80 + c / 64 % 64) ∷ (0x80 + c % 64) ∷ []

abbrev pub IsScalar : ℕ → Type 0
IsScalar c = (c < 0xD800) ⊎ ((0xE000 ≤ c) × (c < 0x110000))

unfoldable pub encode_text : List ℕ → List ℕ
encode_text [] = []
encode_text (c ∷ cs) = encode_char c ++ encode_text cs

-- The invariant of Rust's `String`: its bytes encode some Unicode scalar values.
abbrev pub IsUtf8 : List ℕ → Type 0
IsUtf8 bytes = (cs : List ℕ) × All IsScalar cs × (encode_text cs ≡ bytes)

abbrev IsContinuation : ℕ → Type 0
IsContinuation b = (0x80 ≤ b) × (b < 0xC0)

-- What `decode` does on the shortest, the two-byte, the three-byte and the four-byte sequences.
decode_two :
    (a b : ℕ) (rest : List ℕ)
    → 0xC2 ≤ a
    → a < 0xE0
    → IsContinuation b
    → decode start (a ∷ b ∷ rest) ≡ a ∷ b ∷ decode start rest
unfolding decode feed follow lead
decode_two a b rest lo hi cb = ground arith

decode_three :
    (a b c : ℕ) (rest : List ℕ)
    → 0xE0 ≤ a
    → a < 0xF0
    → IsContinuation b
    → IsContinuation c
    → 0xE0A0 ≤ 256 * a + b
    → (256 * a + b < 0xEDA0) ⊎ (0xEE00 ≤ 256 * a)
    → decode start (a ∷ b ∷ c ∷ rest) ≡ a ∷ b ∷ c ∷ decode start rest
unfolding decode feed follow lead
decode_three a b c rest lo hi cb cc' low mid = ground arith

decode_four :
    (a b c d : ℕ) (rest : List ℕ)
    → 0xF0 ≤ a
    → IsContinuation b
    → IsContinuation c
    → IsContinuation d
    → 0xF090 ≤ 256 * a + b
    → 256 * a + b < 0xF490
    → decode start (a ∷ b ∷ c ∷ d ∷ rest) ≡ a ∷ b ∷ c ∷ d ∷ decode start rest
unfolding decode feed follow lead
decode_four a b c d rest lo cb cc' cd low high = ground arith

decode-encode_char :
    (c : ℕ) (rest : List ℕ)
    → IsScalar c
    → decode start (encode_char c ++ rest) ≡ encode_char c ++ decode start rest
unfolding encode_char
decode-encode_char c rest h = elim (Bool-cases (ltb c 0x80)) [
  | inl one ↦ rw one (unfold decode feed lead in rw one)
  | inr e1 ↦ elim (Bool-cases (ltb c 0x800)) [
    | inl two ↦ rw (e1, two) (decode_two _ _ rest (ground arith) (ground arith) (ground arith))
    | inr e2 ↦ elim (Bool-cases (ltb c 0x10000)) [
      | inl three ↦
          rw (e1, e2, three)
            (ground
              (arith, decode_three (0xE0 + c / 4096) (0x80 + c / 64 % 64) (0x80 + c % 64) rest))
      | inr four ↦
          rw (e1, e2, four)
            (ground (
              arith,
              decode_four (0xF0 + c / 262144) (0x80 + c / 4096 % 64) (0x80 + c / 64 % 64)
                  (0x80 + c % 64) rest,
            ))
    ]
  ]
]

decode-encode_text :
    (cs : List ℕ) → All IsScalar cs → decode start (encode_text cs) ≡ encode_text cs
unfolding encode_text decode
decode-encode_text [] h = refl
decode-encode_text (c ∷ cs) h =
    decode-encode_char c (encode_text cs) h.0
    ∙ ap (λ t. encode_char c ++ t) (decode-encode_text cs h.1)

-- Valid UTF-8 is decoded to itself.
pub from_utf8_lossy-IsUtf8 : (bytes : List ℕ) → IsUtf8 bytes → from_utf8_lossy bytes ≡ bytes
unfolding from_utf8_lossy
from_utf8_lossy-IsUtf8 bytes (cs, scalars, e) =
    ap (decode start) (sym e) ∙ decode-encode_text cs scalars ∙ e

lossy_test :
    from_utf8_lossy (0x61 ∷ 0xF1 ∷ 0x80 ∷ 0x80 ∷ 0xE1 ∷ 0x80 ∷ 0xC2 ∷ 0x62 ∷ 0x80 ∷ [])
    ≡ 0x61 ∷ replacement ++ replacement ++ replacement ++ 0x62 ∷ replacement
unfolding from_utf8_lossy
lossy_test = refl
