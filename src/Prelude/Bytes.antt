-- ===== src/Prelude/Bytes.antt =====
-- Rust's `to_le_bytes` and `from_le_bytes`, and `Read::read_exact`, over lists of bytes.
use potatodb.Prelude.Tests.{Option-cases}
use mathlib.Core.Logic.{inl, inr}
use potatodb.Prelude.Lists.{length}
use Prim.Native.Nat.{ℕ, zero, suc, ◌+◌, ◌*◌, ◌/◌, ◌%◌, ◌^◌, ◌<◌}
use mathlib.Core.Path.{◌≡◌, refl, ap}
use mathlib.Core.Option.{Option, none, some}
use mathlib.Core.List.{List, [], ◌∷◌, ◌++◌}
use native.Mathlib.Omega.{arith}

-- `n.to_le_bytes()` of a `k`-byte unsigned integer.
unfoldable pub to_le_bytes : ℕ → ℕ → List ℕ
to_le_bytes zero n = []
to_le_bytes (suc k) n = (n % 256) ∷ to_le_bytes k (n / 256)

unfoldable pub from_le_bytes : List ℕ → ℕ
from_le_bytes [] = 0
from_le_bytes (b ∷ bs) = b + 256 * from_le_bytes bs

pub from-to : (k n : ℕ) → n < 256 ^ k → from_le_bytes (to_le_bytes k n) ≡ n
unfolding to_le_bytes from_le_bytes
from-to zero n h = omega arith
from-to (suc k) n h = omega (arith, from-to k (n / 256) (omega arith))

pub length-to : (k n : ℕ) → length (to_le_bytes k n) ≡ k
unfolding to_le_bytes
length-to zero n = refl
length-to (suc k) n = ap suc (length-to k (n / 256))

-- `reader.read_exact(&mut [0; n])`: the bytes read and the rest; `none` is `UnexpectedEof`.
unfoldable pub read_exact : ℕ → List ℕ → Option (List ℕ × List ℕ)
read_exact zero bs = some ([], bs)
read_exact (suc n) [] = none
read_exact (suc n) (b ∷ bs) = elim (read_exact n bs) [
  | none ↦ none
  | some (got, rest) ↦ some (b ∷ got, rest)
]

pub read_exact-append :
    (n : ℕ) (xs ys : List ℕ) → length xs ≡ n → read_exact n (xs ++ ys) ≡ some (xs, ys)
unfolding read_exact
read_exact-append zero [] ys h = refl
read_exact-append zero (x ∷ xs) ys h = absurd (omega arith)
read_exact-append (suc n) [] ys h = absurd (omega arith)
read_exact-append (suc n) (x ∷ xs) ys h = rw (read_exact-append n xs ys (omega arith))

pub read_exact_short : (n : ℕ) (xs : List ℕ) → length xs < n → read_exact n xs ≡ none
unfolding read_exact
read_exact_short zero xs h = elim h [ ]
read_exact_short (suc n) [] h = refl
read_exact_short (suc n) (x ∷ xs) h = rw (read_exact_short n xs (omega arith))

-- What is read and what is left add up to the input.
pub length-read_exact :
    (n : ℕ) (bs got rest : List ℕ)
    → read_exact n bs ≡ some (got, rest)
    → (length got ≡ n) × (length got + length rest ≡ length bs)
unfolding read_exact
length-read_exact zero bs got rest h = ground arith
length-read_exact (suc n) [] got rest h = cc
length-read_exact (suc n) (b ∷ bs) got rest h = elim (Option-cases (read_exact n bs)) [
  | inl e ↦ ground (arith, e)
  | inr ((g, r), e) ↦ ground (arith, length-read_exact n bs g r)
]
