-- ===== src/Tui/Query.antt =====
-- `handle_query_key` of crates/tui/src/lib.rs: one function for each arm.
use potatodb.Prelude.{
  ℕ, ◌+◌, ◌-◌, Bool, true, false, Option, none, some, List, [], ◌∷◌, ◌++◌, ◌||◌, length, get_elem?,
  head?, is_empty, ltb, min, ◌==◌, if◌then◌else◌,
}
use mathlib.Core.List.{reverse}
use potatodb.Sql.Text.{codes, trim, peeks}
use potatodb.Tui.Line.{byte_len, slice_from, truncate, insert_str, remove}
use potatodb.Tui.App.{
  App, Action, stay, execute, KeyEvent, KeyCode, Modifiers, enter, tab, back_tab, esc, backspace,
  delete, up, down, left, right, home, end, page_up, page_down, function_key, char, unhandled,
  control, alt, plain, shift, other,
}
use potatodb.Tui.Panic.{◌>>=◌, set, insert_at, remove_at, split_lines}
use potatodb.Tui.History.{try_execute, clear_input, input_text}

abbrev pub current_line : App → Option (List ℕ)
current_line a = get_elem? a.input_lines a.cursor_row

abbrev pub staying : App → Option (App × Action)
staying a = some (a, stay)

-- A key that edits the current line, and where it puts the cursor.
unfoldable pub edit_line : App → (List ℕ → Option (List ℕ)) → ℕ → Option App
unfolding set
edit_line a edit col = do
  line ← current_line a
  line' ← edit line
  some (record a { input_lines = set a.input_lines a.cursor_row line'; cursor_col = col })

unfoldable pub break_line : App → Option App
unfolding slice_from truncate set insert_at
break_line a = do
  line ← current_line a
  rest ← slice_from line a.cursor_col
  line' ← truncate line a.cursor_col
  lines ← insert_at (set a.input_lines a.cursor_row line') (a.cursor_row + 1) rest
  some (record a { input_lines = lines; cursor_row = a.cursor_row + 1; cursor_col = 0 })

-- `trimmed.starts_with('\\')` or `trimmed.ends_with(';')`
unfoldable pub complete_command : List ℕ → Bool
unfolding peeks
complete_command trimmed = peeks (head? trimmed) b'\\' || peeks (head? (reverse trimmed)) b';'

unfoldable pub on_enter : App → Option (App × Action)
unfolding complete_command input_text trim try_execute break_line
on_enter a =
    if complete_command (trim (input_text a))
    then some (try_execute a)
    else break_line a >>= staying

unfoldable pub kill_to_start : App → Option App
unfolding slice_from edit_line
kill_to_start a = edit_line a (λ line. slice_from line a.cursor_col) 0

unfoldable pub kill_to_end : App → Option App
unfolding truncate edit_line
kill_to_end a = edit_line a (λ line. truncate line a.cursor_col) a.cursor_col

abbrev pub describe_sql : List ℕ → List ℕ
describe_sql name =
    codes
      "SELECT column_name, data_type, is_nullable FROM information_schema.columns WHERE table_name = '"
    ++ (name ++ b'\'' ∷ [])

unfoldable pub describe_table : App → App × Action
describe_table a = elim (get_elem? a.tables a.selected_table) [
  | none ↦ (a, stay)
  | some name ↦ (a, execute (describe_sql name))
]

-- The cursor goes to a row, and no further than its end.
unfoldable pub to_row : App → ℕ → Option App
unfolding byte_len
to_row a row = get_elem? a.input_lines row >>= λ line.
    some (record a { cursor_row = row; cursor_col = min a.cursor_col (byte_len line) })

abbrev pub previous : Option ℕ → ℕ → ℕ
previous none n = n - 1
previous (some i) n = if ltb 0 i then i - 1 else i

-- The lines of an older entry, with the cursor behind the last.
unfoldable pub recall_older : App → Option App
unfolding split_lines byte_len
recall_older a =
    let idx = previous a.history_pos (length a.history) in
    get_elem? a.history idx >>= λ entry.
    let lines = split_lines entry in
    get_elem? lines (length lines - 1) >>= λ line. some (record a {
      input_lines = lines;
      cursor_row = length lines - 1;
      cursor_col = byte_len line;
      history_pos = some idx;
    })

unfoldable pub on_up : App → Option App
unfolding to_row recall_older
on_up a =
    if ltb 0 a.cursor_row
    then to_row a (a.cursor_row - 1)
    else if is_empty a.history
    then some a
    else recall_older a

unfoldable pub recall_newer : ℕ → App → Option App
unfolding split_lines clear_input
recall_newer idx a =
    if ltb (idx + 1) (length a.history)
    then (get_elem? a.history (idx + 1) >>= λ entry. some (record a {
      input_lines = split_lines entry;
      cursor_row = 0;
      cursor_col = 0;
      history_pos = some (idx + 1);
    }))
    else some (clear_input (record a { history_pos = none }))

unfoldable pub on_down : App → Option App
unfolding to_row recall_newer
on_down a =
    if ltb (a.cursor_row + 1) (length a.input_lines)
    then to_row a (a.cursor_row + 1)
    else elim a.history_pos [ none ↦ some a | some idx ↦ recall_newer idx a ]

-- The cursor goes to the end of a row.
unfoldable pub to_end_of : App → ℕ → Option App
unfolding byte_len
to_end_of a row = get_elem? a.input_lines row >>= λ line.
    some (record a { cursor_row = row; cursor_col = byte_len line })

unfoldable pub on_left : App → Option App
unfolding to_end_of
on_left a =
    if ltb 0 a.cursor_col
    then some (record a { cursor_col = a.cursor_col - 1 })
    else if ltb 0 a.cursor_row
    then to_end_of a (a.cursor_row - 1)
    else some a

unfoldable pub on_right : App → Option App
unfolding byte_len
on_right a = current_line a >>= λ line.
    if ltb a.cursor_col (byte_len line)
    then some (record a { cursor_col = a.cursor_col + 1 })
    else if ltb (a.cursor_row + 1) (length a.input_lines)
    then some (record a { cursor_row = a.cursor_row + 1; cursor_col = 0 })
    else some a

-- Row `row + 1` is appended to row `row`, behind which the cursor is put at `col`.
unfoldable pub join_rows : App → ℕ → (List ℕ → ℕ) → Option App
unfolding remove_at set
join_rows a row col = do
  (lines, removed) ← remove_at a.input_lines (row + 1)
  line ← get_elem? lines row
  some (record a {
    input_lines = set lines row (line ++ removed);
    cursor_row = row;
    cursor_col = col line;
  })

unfoldable pub on_backspace : App → Option App
unfolding edit_line remove join_rows byte_len
on_backspace a =
    if ltb 0 a.cursor_col
    then edit_line a (λ line. remove line (a.cursor_col - 1)) (a.cursor_col - 1)
    else if ltb 0 a.cursor_row
    then join_rows a (a.cursor_row - 1) byte_len
    else some a

unfoldable pub on_delete : App → Option App
unfolding edit_line remove join_rows byte_len
on_delete a = current_line a >>= λ line.
    if ltb a.cursor_col (byte_len line)
    then edit_line a (λ l. remove l a.cursor_col) a.cursor_col
    else if ltb (a.cursor_row + 1) (length a.input_lines)
    then join_rows a a.cursor_row (λ l. a.cursor_col)
    else some a

-- The cursor is moved by one byte, whatever the character.
unfoldable pub on_char : App → ℕ → Option App
unfolding edit_line insert_str
on_char a c = edit_line a (λ line. insert_str line a.cursor_col (c ∷ [])) (a.cursor_col + 1)

unfoldable pub control_char : App → ℕ → Option (App × Action)
unfolding try_execute kill_to_start kill_to_end clear_input describe_table
control_char a c =
    if c == b'j'
    then some (try_execute a)
    else if c == b'u'
    then kill_to_start a >>= staying
    else if c == b'k'
    then kill_to_end a >>= staying
    else if c == b'w'
    then staying (clear_input a)
    else if c == b'd'
    then some (describe_table a)
    else staying a

unfoldable pub char_key : App → Modifiers → ℕ → Option (App × Action)
unfolding control_char on_char
char_key a control c = control_char a c
char_key a plain c = on_char a c >>= staying
char_key a shift c = on_char a c >>= staying
char_key a alt c = staying a
char_key a other c = staying a

abbrev pub executes : Modifiers → Bool
executes control = true
executes alt = true
executes _ = false

-- The `match` on the key.
unfoldable pub query_key : App → Modifiers → KeyCode → Option (App × Action)
unfolding char_key on_enter on_up on_down on_left on_right on_backspace on_delete try_execute
    byte_len
query_key a m enter = if executes m then some (try_execute a) else on_enter a
query_key a m (function_key n) = if n == 5 then some (try_execute a) else staying a
query_key a m (char c) = char_key a m c
query_key a m up = on_up a >>= staying
query_key a m down = on_down a >>= staying
query_key a m left = on_left a >>= staying
query_key a m right = on_right a >>= staying
query_key a m home = staying (record a { cursor_col = 0 })
query_key a m end = to_end_of a a.cursor_row >>= staying
query_key a m backspace = on_backspace a >>= staying
query_key a m delete = on_delete a >>= staying
query_key a m tab = staying a
query_key a m back_tab = staying a
query_key a m esc = staying a
query_key a m page_up = staying a
query_key a m page_down = staying a
query_key a m unhandled = staying a

unfoldable pub handle_query_key : App → KeyEvent → Option (App × Action)
unfolding query_key
handle_query_key a key = query_key (record a { completion = none }) key.modifiers key.code
