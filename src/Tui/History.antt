-- ===== src/Tui/History.antt =====
-- The entered text and its history: `input_text`, `save_history_entry`, `clear_input` and
-- `try_execute` of crates/tui/src/lib.rs. Writing the history file is left out: it changes nothing
-- of the state.
use potatodb.Prelude.{
  ℕ, ◌-◌, Bool, true, false, none, List, [], ◌∷◌, ◌++◌, ◌&&◌, length, drop, head?, is_empty, ltb,
  ◌==◌, if◌then◌else◌,
}
use potatodb.Sql.Text.{trim, peeks}
use potatodb.Sql.Strip.{strip_sql_comments}
use potatodb.Tui.App.{App, Action, stay, execute}
use potatodb.Tui.Panic.{join_lines}

abbrev pub history_max : ℕ
history_max = 1000

-- Equality of texts.
unfoldable pub text_eq : List ℕ → List ℕ → Bool
text_eq [] [] = true
text_eq (c ∷ s) (d ∷ t) = (c == d) && text_eq s t
text_eq _ _ = false

abbrev pub last_is : List (List ℕ) → List ℕ → Bool
last_is [] entry = false
last_is (e ∷ []) entry = text_eq e entry
last_is (e ∷ e' ∷ es) entry = last_is (e' ∷ es) entry

unfoldable pub push_entry : List (List ℕ) → List ℕ → List (List ℕ)
unfolding text_eq
push_entry history entry =
    let longer = if last_is history entry then history else history ++ entry ∷ [] in
    if ltb history_max (length longer) then drop (length longer - history_max) longer else longer

unfoldable pub save_history_entry : List ℕ → App → App
unfolding push_entry trim
save_history_entry sql a =
    let entry = trim sql in
    if is_empty entry
    then a
    else record a { history = push_entry a.history entry; history_pos = none }

unfoldable pub clear_input : App → App
clear_input a = record a {
  input_lines = [] ∷ [];
  cursor_row = 0;
  cursor_col = 0;
  completion = none;
}

unfoldable pub input_text : App → List ℕ
unfolding join_lines
input_text a = join_lines a.input_lines

unfoldable pub try_execute : App → App × Action
unfolding input_text save_history_entry clear_input trim strip_sql_comments peeks
try_execute a =
    let raw = input_text a in
    let trimmed = trim raw in
    let sql = strip_sql_comments raw in
    let cleared = clear_input (save_history_entry raw a) in
    if is_empty trimmed
    then (a, stay)
    else if peeks (head? trimmed) b'\\'
    then (cleared, execute trimmed)
    else if is_empty sql
    then (cleared, stay)
    else (cleared, execute sql)
