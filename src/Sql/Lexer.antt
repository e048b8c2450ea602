-- ===== src/Sql/Lexer.antt =====
-- The loops of `split_sql_statements` in crates/engine/src/lib.rs. A mode is the loop that the code
-- stands in.
use potatodb.Prelude.{
  ℕ, zero, suc, ◌≡◌, Bool, true, false, Option, none, some, List, [], ◌∷◌, ◌++◌, ◌==◌,
  if◌then◌else◌, append-nil, ap, refl, head?,
}
use potatodb.Sql.Text.{peeks}

-- `block n`: inside `n + 1` block comments. The depth is below 2 ^ 32 in a text below 8 GB.
pub data Mode : Type 0 where
  code quoted line : Mode
  block : ℕ → Mode

-- What one round does: the characters it pushes, whether it took the peeked one, and the next
-- mode; or the end of a statement.
pub data Round : Type 0 where
  push : List ℕ → Bool → Mode → Round
  terminator : Round

unfoldable pub code_round : ℕ → Option ℕ → Round
unfolding peeks
code_round ch p =
    if ch == b'\''
    then push (ch ∷ []) false quoted
    else if ch == b'-'
    then if peeks p b'-' then push [] true line else push (b'-' ∷ []) false code
    else if ch == b'/'
    then if peeks p b'*' then push [] true (block zero) else push (b'/' ∷ []) false code
    else if ch == b';'
    then terminator
    else push (ch ∷ []) false code

unfoldable pub quoted_round : ℕ → Option ℕ → Round
unfolding peeks
quoted_round ch p =
    if ch == b'\''
    then if peeks p b'\''
      then push (b'\'' ∷ b'\'' ∷ []) true quoted
      else push (b'\'' ∷ []) false code
    else push (ch ∷ []) false quoted

unfoldable pub line_round : ℕ → Round
line_round ch = if ch == b'\n' then push (b' ' ∷ []) false code else push [] false line

unfoldable pub close_block : ℕ → Round
close_block zero = push (b' ' ∷ []) true code
close_block (suc n) = push [] true (block n)

unfoldable pub block_round : ℕ → ℕ → Option ℕ → Round
unfolding close_block peeks
block_round n ch p =
    if ch == b'*'
    then if peeks p b'/' then close_block n else push [] false (block n)
    else if ch == b'/'
    then if peeks p b'*' then push [] true (block (suc n)) else push [] false (block n)
    else push [] false (block n)

unfoldable pub round : Mode → ℕ → Option ℕ → Round
unfolding code_round quoted_round line_round block_round
round code ch p = code_round ch p
round quoted ch p = quoted_round ch p
round line ch p = line_round ch
round (block n) ch p = block_round n ch p

-- At the end of the text a block comment that is still open leaves a space too.
unfoldable pub at_end : Mode → List ℕ
at_end (block n) = b' ' ∷ []
at_end _ = []

-- The loop over a text: `semicolon` is what is done at the end of a statement, given how the loop
-- goes on with a new `current`, and `finish` what is done at the end of the text.
module _ {R : Type 0} (semicolon : List ℕ → (List ℕ → R) → R) (finish : List ℕ → R) where
  unfoldable pub advance : Round → List ℕ → (Mode → List ℕ → R) → (Mode → List ℕ → R) → R
  advance (push t false m) current next past = next m (current ++ t)
  advance (push t true m) current next past = past m (current ++ t)
  advance terminator current next past = semicolon current (next code)

  unfoldable pub loop : Mode → List ℕ → List ℕ → R
  unfolding advance round at_end
  loop m [] current = finish (current ++ at_end m)
  loop m (ch ∷ []) current =
      advance (round m ch none) current (λ m' c. loop m' [] c) (λ m' c. loop m' [] c)
  loop m (ch ∷ d ∷ rest) current =
      advance (round m ch (some d)) current (λ m' c. loop m' (d ∷ rest) c) (λ m' c. loop m' rest c)

  pub loop-push :
      (m m' : Mode) (ch : ℕ) (rest t current : List ℕ)
      → round m ch (head? rest) ≡ push t false m'
      → loop m (ch ∷ rest) current ≡ loop m' rest (current ++ t)
  unfolding loop
  loop-push m m' ch [] t current h = rw h
  loop-push m m' ch (d ∷ rest) t current h = rw h

  pub loop-skip :
      (m m' : Mode) (ch d : ℕ) (rest t current : List ℕ)
      → round m ch (some d) ≡ push t true m'
      → loop m (ch ∷ d ∷ rest) current ≡ loop m' rest (current ++ t)
  unfolding loop
  loop-skip m m' ch d rest t current h = rw h

  pub loop-semicolon :
      (rest current : List ℕ)
      → loop code (b';' ∷ rest) current ≡ semicolon current (λ c. loop code rest c)
  unfolding loop
  loop-semicolon [] current = refl
  loop-semicolon (d ∷ rest) current = refl

  pub loop-end : (current : List ℕ) → loop code [] current ≡ finish current
  unfolding loop
  loop-end current = ap finish (append-nil current)
