-- ===== src/Tui/Keys.antt =====
-- `handle_key` of crates/tui/src/lib.rs, and a session of keys.
use potatodb.Prelude.{
  ℕ, Bool, true, false, not, ◌||◌, ◌&&◌, Option, none, some, List, [], ◌∷◌, is_empty, ◌==◌,
  if◌then◌else◌,
}
use potatodb.Tui.App.{
  App, Action, quit, Focus, next, prev, Popup, closed, help, export, no_results, KeyEvent, KeyCode,
  tab, back_tab, esc, function_key, char, is_control, is_shift, is_query, results_empty,
}
use potatodb.Tui.Panic.{◌>>=◌}
use potatodb.Tui.Query.{handle_query_key, staying}
use potatodb.Tui.Panes.{handle_sidebar_key, handle_results_key}
use potatodb.Tui.Completion.{tab_complete}
use potatodb.Tui.Export.{handle_export_key, set_toast}

-- `Esc | F(1) | Char('q')`
unfoldable pub closes_help : KeyCode → Bool
closes_help esc = true
closes_help (function_key n) = n == 1
closes_help (char c) = c == b'q'
closes_help _ = false

-- What the window with the focus does.
unfoldable pub focused_key : App → KeyEvent → Focus → Option (App × Action)
unfolding handle_query_key handle_sidebar_key handle_results_key
focused_key a key Focus.query = handle_query_key a key
focused_key a key Focus.sidebar = some (handle_sidebar_key a key.code)
focused_key a key Focus.results = some (handle_results_key a key.code)

abbrev pub on_focused : App → KeyEvent → Option (App × Action)
on_focused a key = focused_key a key a.focus

abbrev pub open_export : ℕ → App → App
open_export now a =
    if not (results_empty a.results) && not (is_empty a.results.headers)
    then record a { popup = export }
    else set_toast now no_results a

abbrev pub clear_results : App → App
clear_results a = record a {
  results = record { headers = []; rows = []; message = none };
  selected_row = none;
}

unfoldable pub char_shortcut : ℕ → App → KeyEvent → ℕ → Option (App × Action)
unfolding focused_key results_empty
char_shortcut now a key c =
    if is_control key.modifiers && (c == b'c' || c == b'q')
    then some (a, quit)
    else if c == b'q' && not (is_query a.focus)
    then some (a, quit)
    else if c == b'?' && not (is_query a.focus)
    then staying (record a { popup = help })
    else if is_control key.modifiers && c == b's'
    then staying (open_export now a)
    else if is_control key.modifiers && c == b'l'
    then staying (clear_results a)
    else on_focused a key

-- What happens to the program: a key at a time, or, between keys, anything that the mouse, the
-- clock, drawing and the results of commands do; these leave the fields alone that `meanwhile` keeps.
pub data Event : Type 0 where
  press : ℕ → KeyEvent → Event
  between : App → Event

unfoldable pub meanwhile : App → App → App
meanwhile a b = record a {
  focus = b.focus;
  results = b.results;
  selected_row = b.selected_row;
  h_scroll = b.h_scroll;
  visible_height = b.visible_height;
  tables = b.tables;
  selected_table = b.selected_table;
  schema_cache = b.schema_cache;
  toast = b.toast;
}

abbrev pub is_quit : Action → Bool
is_quit quit = true
is_quit _ = false

module _ (to_uppercase to_lowercase : List ℕ → List ℕ) (is_lowercase : ℕ → Bool) where
  unfoldable pub tab_key : App → Option (App × Action)
  unfolding tab_complete next
  tab_key a =
      if is_query a.focus
      then tab_complete to_uppercase to_lowercase is_lowercase a >>= staying
      else staying (record a { focus = next a.focus })

  -- The `match` on modifiers and code.
  unfoldable pub window_key : ℕ → App → KeyEvent → KeyCode → Option (App × Action)
  unfolding char_shortcut tab_key prev focused_key
  window_key now a key (char c) = char_shortcut now a key c
  window_key now a key (function_key n) =
      if n == 1 then staying (record a { popup = help }) else on_focused a key
  window_key now a key tab = tab_key a
  window_key now a key back_tab =
      if is_shift key.modifiers
      then staying (record a { focus = prev a.focus })
      else on_focused a key
  window_key now a key esc = staying (record a { popup = closed })
  window_key now a key _ = on_focused a key

  module _ (write : List ℕ → List ℕ → Option (List ℕ)) where
    unfoldable pub popup_key : ℕ → App → KeyEvent → Popup → Option (App × Action)
    unfolding window_key closes_help handle_export_key
    popup_key now a key help =
        staying (if closes_help key.code then record a { popup = closed } else a)
    popup_key now a key export = staying (handle_export_key write now a key.code)
    popup_key now a key closed = window_key now a key key.code

    unfoldable pub handle_key : ℕ → App → KeyEvent → Option (App × Action)
    unfolding popup_key
    handle_key now a key = popup_key now a key a.popup

    -- A session. Its keys are handled until one of them quits.
    unfoldable pub session : App → List Event → Option App
    unfolding handle_key meanwhile
    session a [] = some a
    session a (press now key ∷ events) =
        handle_key now a key >>= λ r. if is_quit r.1 then some r.0 else session r.0 events
    session a (between b ∷ events) = session (meanwhile a b) events
