-- ===== src/Tests/Statements.antt =====
-- The theorems about SQL text at small texts, and runs of the routines.
use potatodb.Prelude.{
  ℕ, ◌<◌, ◌≡◌, ◌↔◌, refl, List, [], ◌∷◌, ◌++◌, All, is_empty, if◌then◌else◌, arith,
}
use potatodb.Engine.Parens
use potatodb.Sql.Split.{split_sql_statements}
use potatodb.Sql.Strip.{strip_sql_comments, strip_line_comment}
use potatodb.Sql.Grammar.{
  Keeps, done, plain, literal, line_comment, block_comment, Comment, last, statement, statements,
}
use potatodb.Sql.Comments.{split_sql_statements_lem, split-strip}
use potatodb.Sql.Csv.{split_top_level_csv, Item, join, kept}
use potatodb.Sql.Items.{split_top_level_csv-join}
use potatodb.Sql.Parameters.{substitute_parameters}
use potatodb.Sql.Garbled.{substitute_parameters-eq_iff}

-- x'a;'--;
abbrev first : List ℕ
first = b'x' ∷ b'\'' ∷ b'a' ∷ b';' ∷ b'\'' ∷ b'-' ∷ b'-' ∷ b';' ∷ b'\n' ∷ []

abbrev first_kept : List ℕ
first_kept = b'x' ∷ b'\'' ∷ b'a' ∷ b';' ∷ b'\'' ∷ b' ' ∷ []

first-Keeps : Keeps first first_kept
first-Keeps = plain (omega arith) (omega arith) (omega arith) (omega arith) (
    literal (b'a' ∷ b';' ∷ []) (b'-' ∷ b'-' ∷ b';' ∷ b'\n' ∷ []) (b' ' ∷ [])
      (omega arith, (omega arith, tt)) (line_comment (b';' ∷ []) [] [] (omega arith, tt) done refl)
      refl refl)

-- y/*;*;/;*/
abbrev inside : List ℕ
inside = b';' ∷ b'*' ∷ b';' ∷ b'/' ∷ b';' ∷ []

abbrev second : List ℕ
second = b'y' ∷ b'/' ∷ b'*' ∷ (inside ++ b'*' ∷ b'/' ∷ [])

inside-Comment : Comment inside
inside-Comment = Comment.char (omega arith) (omega arith) (
    Comment.star (λ e. cc)
      (Comment.char (omega arith) (omega arith) (
        Comment.lone_slash (omega arith) (Comment.char (omega arith) (omega arith) Comment.empty))))

second-Keeps : Keeps second (b'y' ∷ b' ' ∷ [])
second-Keeps =
    plain (omega arith) (omega arith) (omega arith) (omega arith)
      (block_comment inside [] [] inside-Comment done refl)

abbrev script : List ℕ
script = first ++ b';' ∷ second

split_sql_statements_lem_example :
    split_sql_statements script ≡ statements (first_kept ∷ []) (b'y' ∷ b' ' ∷ [])
split_sql_statements_lem_example =
    split_sql_statements_lem
      (statement first first_kept second first-Keeps (last second-Keeps) refl)

script_run :
    split_sql_statements script
    ≡ (b'x' ∷ b'\'' ∷ b'a' ∷ b';' ∷ b'\'' ∷ b';' ∷ []) ∷ (b'y' ∷ []) ∷ []
unfolding split_sql_statements
script_run = refl

-- z--
abbrev line : List ℕ
line = b'z' ∷ b'-' ∷ b'-' ∷ b'w' ∷ []

split-strip_example :
    split_sql_statements line
    ≡ (if is_empty (strip_sql_comments line) then [] else strip_sql_comments line ∷ [])
split-strip_example = split-strip line (omega arith)

line_run : strip_line_comment line ≡ b'z' ∷ []
unfolding strip_line_comment
line_run = refl

-- f(a,b)
abbrev call : List ℕ
call = b'f' ∷ b'(' ∷ b'a' ∷ b',' ∷ b'b' ∷ b')' ∷ []

call-Item : Item call
call-Item = Item.char (omega arith) (omega arith) (omega arith) (omega arith) (
    Item.group (b'a' ∷ b',' ∷ b'b' ∷ []) []
      (Parens.char (omega arith) (omega arith) (omega arith) (
        Parens.char (omega arith) (omega arith) (omega arith)
          (Parens.char (omega arith) (omega arith) (omega arith) Parens.empty)))
      Item.empty refl)

split_top_level_csv-join_example :
    split_top_level_csv (join call (call ∷ [])) ≡ kept (call ∷ call ∷ [])
split_top_level_csv-join_example =
    split_top_level_csv-join call (call ∷ []) call-Item (call-Item, tt)

items_run : split_top_level_csv (join call (call ∷ [])) ≡ call ∷ call ∷ []
unfolding split_top_level_csv
items_run = refl

-- a$1 with 'q'
abbrev template : List ℕ
template = b'a' ∷ b'$' ∷ b'1' ∷ []

abbrev parameters : List (List ℕ)
parameters = (b'\'' ∷ b'q' ∷ b'\'' ∷ []) ∷ []

-- the two bytes of é
abbrev accented : List ℕ
accented = 0xC3 ∷ 0xA9 ∷ []

substitute_parameters-eq_iff_example :
    (substitute_parameters accented parameters ≡ accented) ↔ All (λ b. b < 128) accented
substitute_parameters-eq_iff_example =
    substitute_parameters-eq_iff parameters accented (λ e. cc) (omega arith) (omega arith)

accented_run : substitute_parameters accented parameters ≡ 0xC3 ∷ 0x83 ∷ 0xC2 ∷ 0xA9 ∷ []
unfolding substitute_parameters
accented_run = refl
