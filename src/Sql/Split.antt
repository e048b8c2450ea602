-- ===== src/Sql/Split.antt =====
-- `split_sql_statements` of crates/engine/src/lib.rs.
use potatodb.Prelude.{ℕ, List, [], ◌∷◌, ◌++◌, is_empty, if◌then◌else◌}
use potatodb.Sql.Text.{trim}
use potatodb.Sql.Lexer.{loop, code}

-- A statement that is not blank is kept, with the terminator if it had one; the statements behind
-- it follow.
abbrev pub with_terminator : List ℕ → List (List ℕ) → List (List ℕ)
with_terminator current later =
    let stmt = trim current in if is_empty stmt then later else (stmt ++ b';' ∷ []) ∷ later

abbrev pub last_statement : List ℕ → List (List ℕ)
last_statement current = let stmt = trim current in if is_empty stmt then [] else stmt ∷ []

abbrev pub end_statement : List ℕ → (List ℕ → List (List ℕ)) → List (List ℕ)
end_statement current next = with_terminator current (next [])

unfoldable pub split_sql_statements : List ℕ → List (List ℕ)
unfolding loop trim
split_sql_statements sql = loop end_statement last_statement code sql []
