-- ===== src/Tests/Text.antt =====
-- The text functions of crates/engine at small texts.
use potatodb.Prelude.{ℕ, ◌≡◌, refl, none, List, [], ◌∷◌, arith}
use potatodb.Engine.Parens.{
  Balanced, empty, char, quoted, group, find_matching_paren, scan, scan_step,
}

-- a, (b), ')'
abbrev arguments : List ℕ
arguments = b'a' ∷ b'(' ∷ b'b' ∷ b')' ∷ b'\'' ∷ b')' ∷ b'\'' ∷ []

arguments-Balanced : Balanced arguments
arguments-Balanced = char (omega arith) (omega arith) (omega arith) (
    group (b'b' ∷ []) (b'\'' ∷ b')' ∷ b'\'' ∷ [])
      (char (omega arith) (omega arith) (omega arith) empty)
      (quoted (b')' ∷ []) [] (omega arith, tt) empty refl) refl)

abbrev name : List ℕ
name = b'f' ∷ []

unclosed : find_matching_paren (b'(' ∷ b'\'' ∷ b')' ∷ []) 0 ≡ none
unfolding find_matching_paren scan scan_step
unclosed = refl
