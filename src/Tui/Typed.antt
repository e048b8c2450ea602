-- ===== src/Tui/Typed.antt =====
-- Every key of the query window in ASCII.
use potatodb.Prelude.{ℕ, ◌<◌, Option-cases, Option, none, some, get_elem?, inl, inr, arith}
use potatodb.Tui.App.{
  App, Action, KeyCode, Modifiers, enter, tab, back_tab, esc, backspace, delete, up, down, left,
  right, home, end, page_up, page_down, function_key, char, unhandled, control, alt, plain, shift,
  other,
}
use potatodb.Tui.Panic.{◌>>=◌}
use potatodb.Tui.Vectors.{lt_of_get_elem?}
use potatodb.Tui.Query.{
  break_line, kill_to_start, kill_to_end, on_enter, on_up, on_down, to_end_of, on_left, on_right,
  on_backspace, on_delete, on_char, control_char, char_key, query_key, describe_table, staying,
}
use potatodb.Tui.Emptied.{clear_input-Ok, try_execute-Ok}
use potatodb.Tui.Moves.{on_left-Ok, on_right-Ok, on_backspace-Ok, on_delete-Ok}
use potatodb.Tui.Recall.{on_up-Ok, on_down-Ok}
use potatodb.Tui.Typing.{
  IsTyping, Ok, on_char-Ok, kill_to_start-Ok, kill_to_end-Ok, break_line-Ok, to_end_of-Ok,
}

-- The same for what comes with an action.
abbrev pub After : (App → Type 0) → Option (App × Action) → Type 0
After P none = ⊥
After P (some (a, action)) = P a

After-staying : (P : App → Type 0) (o : Option App) → Ok P o → After P (o >>= staying)
After-staying P none h = h
After-staying P (some a) h = h

abbrev pub KeyIsAscii : KeyCode → Type 0
KeyIsAscii (char c) = c < 0x80
KeyIsAscii _ = Unit {0}

describe_table-Ok : (a : App) → IsTyping a → IsTyping (describe_table a).0
unfolding describe_table
describe_table-Ok a t = elim (Option-cases (get_elem? a.tables a.selected_table)) [
  | inl e ↦ rw (e, describe_table) t
  | inr (name, e) ↦ rw (e, describe_table) t
]

control_char-Ok : (a : App) (c : ℕ) → IsTyping a → After IsTyping (control_char a c)
unfolding control_char
control_char-Ok a c t = ground (
  arith,
  try_execute-Ok a t,
  After-staying IsTyping (kill_to_start a) (kill_to_start-Ok a t),
  After-staying IsTyping (kill_to_end a) (kill_to_end-Ok a t),
  clear_input-Ok a t.entries t.recalled t.names,
  describe_table-Ok a t,
)

char_key-Ok :
    (a : App) (m : Modifiers) (c : ℕ) → c < 0x80 → IsTyping a → After IsTyping (char_key a m c)
unfolding char_key
char_key-Ok a control c h t = control_char-Ok a c t
char_key-Ok a plain c h t = After-staying IsTyping (on_char a c) (on_char-Ok a c h t)
char_key-Ok a shift c h t = After-staying IsTyping (on_char a c) (on_char-Ok a c h t)
char_key-Ok a alt c h t = t
char_key-Ok a other c h t = t

on_enter-Ok : (a : App) → IsTyping a → After IsTyping (on_enter a)
unfolding on_enter
on_enter-Ok a t =
    ground (arith, try_execute-Ok a t, After-staying IsTyping (break_line a) (break_line-Ok a t))

end-Ok : (a : App) → IsTyping a → Ok IsTyping (to_end_of a a.cursor_row)
end-Ok a t =
    let (line, at, inside) = t.cursor in
    to_end_of-Ok a a.cursor_row (lt_of_get_elem? a.input_lines a.cursor_row at) t

home-IsTyping : (a : App) → IsTyping a → IsTyping (record a { cursor_col = 0 })
home-IsTyping a t =
    let (line, at, inside) = t.cursor in
    record {
      cursor = (line, at, omega arith);
      lines = t.lines;
      entries = t.entries;
      names = t.names;
      recalled = t.recalled;
      idle = t.idle;
    }

pub query_key-Ok :
    (a : App) (m : Modifiers) (k : KeyCode)
    → KeyIsAscii k
    → IsTyping a
    → After IsTyping (query_key a m k)
unfolding query_key
query_key-Ok a m enter h t = ground (arith, try_execute-Ok a t, on_enter-Ok a t)
query_key-Ok a m (function_key n) h t = ground (arith, try_execute-Ok a t)
query_key-Ok a m (char c) h t = char_key-Ok a m c h t
query_key-Ok a m up h t = After-staying IsTyping (on_up a) (on_up-Ok a t)
query_key-Ok a m down h t = After-staying IsTyping (on_down a) (on_down-Ok a t)
query_key-Ok a m left h t = After-staying IsTyping (on_left a) (on_left-Ok a t)
query_key-Ok a m right h t = After-staying IsTyping (on_right a) (on_right-Ok a t)
query_key-Ok a m home h t = home-IsTyping a t
query_key-Ok a m end h t = After-staying IsTyping (to_end_of a a.cursor_row) (end-Ok a t)
query_key-Ok a m backspace h t = After-staying IsTyping (on_backspace a) (on_backspace-Ok a t)
query_key-Ok a m delete h t = After-staying IsTyping (on_delete a) (on_delete-Ok a t)
query_key-Ok a m tab h t = t
query_key-Ok a m back_tab h t = t
query_key-Ok a m esc h t = t
query_key-Ok a m page_up h t = t
query_key-Ok a m page_down h t = t
query_key-Ok a m unhandled h t = t
