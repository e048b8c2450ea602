-- ===== src/Sql/Strip.antt =====
-- `strip_sql_comments` of crates/tui/src/lib.rs and `strip_line_comment` of crates/repl/src/lib.rs.
use potatodb.Prelude.{
  ℕ, zero, suc, Bool, Option, some, none, List, [], ◌∷◌, ◌++◌, true, false, ◌==◌, if◌then◌else◌,
}
use potatodb.Sql.Text.{trim, peeks}
use potatodb.Sql.Lexer.{Mode, Round, push, code, quoted, quoted_round}

-- The loop that `strip_sql_comments` stands in; `in_block n` is inside `n + 1` block comments.
pub data Place : Type 0 where
  in_text in_literal in_line : Place
  in_block : ℕ → Place

-- The characters that a round of it pushes, whether it takes the peeked one, and the next loop.
pub data Turn : Type 0 where
  put : List ℕ → Bool → Place → Turn

unfoldable pub text_turn : ℕ → Option ℕ → Turn
unfolding peeks
text_turn ch p =
    if ch == b'\''
    then put (ch ∷ []) false in_literal
    else if ch == b'-'
    then if peeks p b'-' then put [] true in_line else put (b'-' ∷ []) false in_text
    else if ch == b'/'
    then if peeks p b'*' then put [] true (in_block zero) else put (b'/' ∷ []) false in_text
    else put (ch ∷ []) false in_text

unfoldable pub literal_turn : ℕ → Option ℕ → Turn
unfolding peeks
literal_turn c p =
    if c == b'\''
    then if peeks p b'\''
      then put (b'\'' ∷ b'\'' ∷ []) true in_literal
      else put (b'\'' ∷ []) false in_text
    else put (c ∷ []) false in_literal

unfoldable pub line_turn : ℕ → Turn
line_turn c = if c == b'\n' then put (b' ' ∷ []) false in_text else put [] false in_line

unfoldable pub leave_block : ℕ → Turn
leave_block zero = put (b' ' ∷ []) true in_text
leave_block (suc n) = put [] true (in_block n)

unfoldable pub block_turn : ℕ → ℕ → Option ℕ → Turn
unfolding peeks leave_block
block_turn n c p =
    if c == b'*'
    then if peeks p b'/' then leave_block n else put [] false (in_block n)
    else if c == b'/'
    then if peeks p b'*' then put [] true (in_block (suc n)) else put [] false (in_block n)
    else put [] false (in_block n)

unfoldable pub turn : Place → ℕ → Option ℕ → Turn
unfolding text_turn literal_turn line_turn block_turn
turn in_text c p = text_turn c p
turn in_literal c p = literal_turn c p
turn in_line c p = line_turn c
turn (in_block n) c p = block_turn n c p

-- A block comment that the text ends in leaves its space.
unfoldable pub left_over : Place → List ℕ
left_over (in_block n) = b' ' ∷ []
left_over _ = []

unfoldable pub after_turn : Turn → (Place → List ℕ) → (Place → List ℕ) → List ℕ
after_turn (put t false m) next past = t ++ next m
after_turn (put t true m) next past = t ++ past m

unfoldable pub stripped : Place → List ℕ → List ℕ
unfolding turn left_over after_turn
stripped m [] = left_over m
stripped m (c ∷ []) = after_turn (turn m c none) (λ m'. stripped m' []) (λ m'. stripped m' [])
stripped m (c ∷ d ∷ rest) =
    after_turn (turn m c (some d)) (λ m'. stripped m' (d ∷ rest)) (λ m'. stripped m' rest)

unfoldable pub strip_sql_comments : List ℕ → List ℕ
unfolding stripped trim
strip_sql_comments sql = trim (stripped in_text sql)

-- The outer loop of `strip_line_comment`; `none` is its `break`. The mode is `code` or `quoted`, and
-- the inner loop is that of `split_sql_statements`.
unfoldable pub line_comment_round : ℕ → Option ℕ → Option Round
unfolding peeks
line_comment_round ch p =
    if ch == b'\''
    then some (push (ch ∷ []) false quoted)
    else if ch == b'-'
    then if peeks p b'-' then none else some (push (b'-' ∷ []) false code)
    else some (push (ch ∷ []) false code)

unfoldable pub strip_round : Mode → ℕ → Option ℕ → Option Round
unfolding line_comment_round quoted_round
strip_round quoted ch p = some (quoted_round ch p)
strip_round _ ch p = line_comment_round ch p

-- The characters pushed from here on.
unfoldable pub strip_advance : Option Round → (Mode → List ℕ) → (Mode → List ℕ) → List ℕ
strip_advance none next past = []
strip_advance (some (push t false m)) next past = t ++ next m
strip_advance (some (push t true m)) next past = t ++ past m
strip_advance (some Round.terminator) next past = []

unfoldable pub strip_loop : Mode → List ℕ → List ℕ
unfolding strip_advance strip_round
strip_loop m [] = []
strip_loop m (ch ∷ []) =
    strip_advance (strip_round m ch none) (λ m'. strip_loop m' []) (λ m'. strip_loop m' [])
strip_loop m (ch ∷ d ∷ rest) =
    strip_advance (strip_round m ch (some d)) (λ m'. strip_loop m' (d ∷ rest))
      (λ m'. strip_loop m' rest)

unfoldable pub strip_line_comment : List ℕ → List ℕ
unfolding strip_loop trim
strip_line_comment line = trim (strip_loop code line)
