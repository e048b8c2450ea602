-- ===== src/Sql/Parameters.antt =====
-- `substitute_parameters` of crates/engine/src/lib.rs, over the UTF-8 bytes of the texts.
use potatodb.Prelude.{
  ℕ, zero, suc, ◌+◌, ◌-◌, ◌*◌, ◌^◌, ◌<◌, ◌≡◌, ◌≢◌, Bool, true, ◌&&◌, Option, none, some, List, [],
  ◌∷◌, ◌++◌, All, length, get_elem?, is_empty, if◌then◌else◌, ltb, leb, ◌==◌, arith,
}
use potatodb.Prelude.Utf8.{encode_char}

unfoldable pub is_ascii_digit : ℕ → Bool
is_ascii_digit b = leb b'0' b && leb b b'9'

-- The digits that a text starts with, and the number that they write, continued from `acc`.
unfoldable pub digits : List ℕ → List ℕ
digits [] = []
digits (b ∷ bs) = let rest = digits bs in if is_ascii_digit b then b ∷ rest else []

unfoldable pub number_of : ℕ → List ℕ → ℕ
number_of acc [] = acc
number_of acc (b ∷ bs) = number_of (10 * acc + (b - b'0')) bs

-- `parse::<usize>()` of digits, where it does not overflow; one past it, the parameter is missing.
unfoldable pub parse_usize : List ℕ → Option ℕ
unfolding number_of
parse_usize ds =
    if is_empty ds
    then none
    else if ltb (number_of 0 ds) (2 ^ 64)
    then some (number_of 0 ds)
    else none

abbrev pub from_one : List (List ℕ) → ℕ → Option (List ℕ)
from_one params zero = none
from_one params (suc i) = get_elem? params i

-- The parameter that a text behind a `$` names.
unfoldable pub parameter : List (List ℕ) → List ℕ → Option (List ℕ)
unfolding parse_usize digits
parameter params rest = elim (parse_usize (digits rest)) [
  | none ↦ none
  | some idx ↦ from_one params idx
]

-- The loop at a byte; `skip` bytes of digits behind a parameter are passed over first. A byte that
-- is not replaced is pushed as the character of its number.
unfoldable pub substitute_loop : List (List ℕ) → ℕ → List ℕ → List ℕ
unfolding parameter encode_char digits
substitute_loop params skip [] = []
substitute_loop params (suc skip) (b ∷ rest) = substitute_loop params skip rest
substitute_loop params zero (b ∷ rest) =
    let kept = substitute_loop params zero rest in
    let replaced = substitute_loop params (length (digits rest)) rest in
    elim (if b == b'$' then parameter params rest else none) [
      | none ↦ encode_char b ++ kept
      | some text ↦ text ++ replaced
    ]

unfoldable pub substitute_parameters : List ℕ → List (List ℕ) → List ℕ
unfolding substitute_loop
substitute_parameters template params =
    if is_empty params then template else substitute_loop params zero template

-- A template and what is to come of it. A number of a parameter ends where the digits end.
pub data Fills (params : List (List ℕ)) : List ℕ → List ℕ → Type 0 where
  done : Fills params [] []
  byte :
      {b : ℕ} {s o : List ℕ}
      → b ≢ b'$'
      → Fills params s o
      → Fills params (b ∷ s) (encode_char b ++ o)
  place :
      {t u : List ℕ} (number s o text : List ℕ)
      → All (λ b. is_ascii_digit b ≡ true) number
      → number ≢ []
      → digits s ≡ []
      → number_of 0 number < 2 ^ 64
      → from_one params (number_of 0 number) ≡ some text
      → Fills params s o
      → t ≡ b'$' ∷ (number ++ s)
      → u ≡ text ++ o
      → Fills params t u

pub loop-byte :
    (params : List (List ℕ)) (b : ℕ) (s : List ℕ)
    → b ≢ b'$'
    → substitute_loop params zero (b ∷ s) ≡ encode_char b ++ substitute_loop params zero s
unfolding substitute_loop
loop-byte params b s h = ground (arith, h)
