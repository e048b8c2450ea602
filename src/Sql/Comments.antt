-- ===== src/Sql/Comments.antt =====
-- `split_sql_statements` against the grammar of texts, and against `strip_sql_comments` of
-- crates/tui/src/lib.rs.
use potatodb.Prelude.{
  ℕ, zero, suc, ◌≡◌, ◌≢◌, refl, sym, ap, ◌∙◌, true, false, Bool-cases, List, [], ◌∷◌, ◌++◌,
  append_assoc, All, Option, none, some, is_empty, if◌then◌else◌, inl, inr, arith,
}
use potatodb.Sql.Text.{trim}
use potatodb.Sql.Lexer.{
  Round, push, terminator, round, code_round, quoted_round, line_round, block_round, close_block,
  at_end, advance, Mode, code, quoted, line, block, loop, loop-semicolon,
}
use potatodb.Sql.Split.{split_sql_statements, end_statement, with_terminator, last_statement}
use potatodb.Sql.Strip.{
  Place, in_text, in_literal, in_line, in_block, Turn, put, turn, text_turn, literal_turn,
  line_turn, block_turn, leave_block, left_over, after_turn, stripped, strip_sql_comments,
}
use potatodb.Sql.Grammar.{
  Script, last, statement, statements, not_blank, loop-Keeps, loop-Keeps_all,
}

last_statement_lem : (o : List ℕ) → last_statement o ≡ not_blank (o ∷ [])
last_statement_lem o = elim (Bool-cases (is_empty (trim o))) [
  | inl q ↦ ground (arith, q)
  | inr q ↦ ground (arith, q)
]

with_terminator_lem :
    (o : List ℕ) (parts : List (List ℕ)) (end : List ℕ)
    → with_terminator o (statements parts end) ≡ statements (o ∷ parts) end
with_terminator_lem o parts end = elim (Bool-cases (is_empty (trim o))) [
  | inl q ↦ ground (arith, q)
  | inr q ↦ ground (arith, q)
]

-- A text built of literals, nested block comments, line comments and other characters is split at
-- exactly the semicolons outside literals and comments; each comment leaves a space, each statement
-- is trimmed and keeps its semicolon if it had one, and blank statements are left out.
pub split_sql_statements_lem :
    {sql : List ℕ} {parts : List (List ℕ)} {end : List ℕ}
    → Script sql parts end
    → split_sql_statements sql ≡ statements parts end
unfolding split_sql_statements
split_sql_statements_lem (last {s} {o} k) =
    loop-Keeps_all end_statement last_statement k [] ∙ last_statement_lem o
split_sql_statements_lem (statement {t} {later} {end} s o rest k more e) =
    ap (λ v. loop end_statement last_statement code v []) e
    ∙ loop-Keeps end_statement last_statement k (b';' ∷ rest) [] (inr refl)
    ∙ loop-semicolon end_statement last_statement rest o
    ∙ ap (with_terminator o) (split_sql_statements_lem more)
    ∙ with_terminator_lem o later end

abbrev unless_empty : List ℕ → List (List ℕ)
unless_empty stmt = if is_empty stmt then [] else stmt ∷ []

-- The loops and rounds of the one routine as those of the other.
abbrev place : Mode → Place
place code = in_text
place quoted = in_literal
place line = in_line
place (block n) = in_block n

abbrev turn_of : Round → Turn
turn_of (push t taken m) = put t taken (place m)
turn_of terminator = put [] false in_text

turn_agrees :
    (m : Mode) (ch : ℕ) (p : Option ℕ)
    → ch ≢ b';'
    → (turn (place m) ch p ≡ turn_of (round m ch p)) × (round m ch p ≢ terminator)
unfolding turn text_turn literal_turn line_turn block_turn leave_block round code_round quoted_round
    line_round block_round close_block
turn_agrees code ch p h = ground (arith, h)
turn_agrees quoted ch p h = ground arith
turn_agrees line ch p h = ground arith
turn_agrees (block zero) ch p h = ground arith
turn_agrees (block (suc n)) ch p h = ground arith

left_agrees : (m : Mode) → left_over (place m) ≡ at_end m
unfolding left_over at_end
left_agrees code = refl
left_agrees quoted = refl
left_agrees line = refl
left_agrees (block n) = refl

advance_agrees :
    (r : Round) (t : Turn) (current : List ℕ) (next past : Mode → List ℕ → List (List ℕ))
    (next' past' : Place → List ℕ)
    → (t ≡ turn_of r) × (r ≢ terminator)
    → ((m : Mode) (c : List ℕ) → next m c ≡ unless_empty (trim (c ++ next' (place m))))
    → ((m : Mode) (c : List ℕ) → past m c ≡ unless_empty (trim (c ++ past' (place m))))
    → advance end_statement last_statement r current next past
      ≡ unless_empty (trim (current ++ after_turn t next' past'))
unfolding advance after_turn
advance_agrees (push t false m) u current next past next' past' (e, h) hn hp =
    hn m (current ++ t)
    ∙ ap (λ x. unless_empty (trim x)) (append_assoc current t (next' (place m)))
    ∙ ap (λ x. unless_empty (trim (current ++ after_turn x next' past'))) (sym e)
advance_agrees (push t true m) u current next past next' past' (e, h) hn hp =
    hp m (current ++ t)
    ∙ ap (λ x. unless_empty (trim x)) (append_assoc current t (past' (place m)))
    ∙ ap (λ x. unless_empty (trim (current ++ after_turn x next' past'))) (sym e)
advance_agrees terminator u current next past next' past' (e, h) hn hp = absurd (h refl)

-- Where no semicolon stands, the two loops go the same way.
loop_agrees :
    (m : Mode) (s current : List ℕ)
    → All (λ c. c ≢ b';') s
    → loop end_statement last_statement m s current
      ≡ unless_empty (trim (current ++ stripped (place m) s))
unfolding loop stripped
loop_agrees m [] current h = ap (λ x. unless_empty (trim (current ++ x))) (sym (left_agrees m))
loop_agrees m (ch ∷ []) current h =
    advance_agrees (round m ch none) (turn (place m) ch none) current _ _ _ _
      (turn_agrees m ch none h.0) (λ m' c. loop_agrees m' [] c tt) (λ m' c. loop_agrees m' [] c tt)
loop_agrees m (ch ∷ d ∷ rest) current h =
    advance_agrees (round m ch (some d)) (turn (place m) ch (some d)) current _ _ _ _
      (turn_agrees m ch (some d) h.0) (λ m' c. loop_agrees m' (d ∷ rest) c h.1)
      (λ m' c. loop_agrees m' rest c h.1.1)

-- Where no semicolon stands in a text, the engine's splitter returns what the terminal interface's
-- comment stripper returns: as the only statement, or no statement if that is empty.
pub split-strip :
    (sql : List ℕ)
    → All (λ c. c ≢ b';') sql
    → split_sql_statements sql
      ≡ (if is_empty (strip_sql_comments sql) then [] else strip_sql_comments sql ∷ [])
unfolding split_sql_statements strip_sql_comments
split-strip sql h = loop_agrees code sql [] h
