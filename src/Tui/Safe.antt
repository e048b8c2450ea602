-- ===== src/Tui/Safe.antt =====
-- The terminal interface never panics on ASCII, whatever keys are pressed.
use potatodb.Prelude.{
  ℕ, refl, Bool, true, false, Option-cases, Option, none, some, List, [], ◌∷◌, All, get_elem?,
  is_empty, if◌then◌else◌, inl, inr, not, ◌&&◌, ◌||◌, ◌==◌,
}
use potatodb.Tui.Line.{IsAscii}
use potatodb.Tui.App.{
  App, Action, QueryResults, Toast, KeyEvent, KeyCode, enter, tab, back_tab, esc, backspace, up,
  down, left, right, home, end, page_up, page_down, function_key, char, Focus, Popup, closed, help,
  export, is_shift, is_control, is_query, results_empty,
}
use potatodb.Tui.Panic.{◌>>=◌}
use potatodb.Tui.Query.{handle_query_key, query_key, staying}
use potatodb.Tui.Panes.{handle_sidebar_key, handle_results_key}
use potatodb.Tui.Completion.{column_names, tab_complete}
use potatodb.Tui.Export.{handle_export_key}
use potatodb.Tui.Keys.{
  closes_help, focused_key, char_shortcut, tab_key, window_key, popup_key, handle_key, Event, press,
  between, meanwhile, is_quit, session,
}
use potatodb.Tui.Typing.{IsTyping, Ok}
use potatodb.Tui.Typed.{After, KeyIsAscii, query_key-Ok}
use potatodb.Tui.Offered.{IsSafe, tab_complete-Ok}

-- A state that has the fields which the invariant is about in common with a safe one.
typing-IsSafe : (a : App) → IsTyping a → IsSafe a
typing-IsSafe a t = record {
  typing = record {
    cursor = t.cursor;
    lines = t.lines;
    entries = t.entries;
    recalled = t.recalled;
    names = t.names;
    idle = refl;
  };
  shown = rw t.idle tt;
}

After-IsSafe : (o : Option (App × Action)) → After IsTyping o → After IsSafe o
After-IsSafe none h = h
After-IsSafe (some (a, action)) h = typing-IsSafe a h

After-staying : (o : Option App) → Ok IsSafe o → After IsSafe (o >>= staying)
After-staying none h = h
After-staying (some a) h = h

-- The fields that the invariant is not about may change.
core-IsSafe :
    (a : App) {focus : Focus} {results : QueryResults} {selected_row : Option ℕ}
    {h_scroll visible_height selected_table : ℕ} {popup : Popup} {toast : Option Toast}
    {export_path : List ℕ} {export_format : ℕ}
    → IsSafe a
    → IsSafe (record a {
      focus = focus;
      results = results;
      selected_row = selected_row;
      h_scroll = h_scroll;
      visible_height = visible_height;
      selected_table = selected_table;
      popup = popup;
      toast = toast;
      export_path = export_path;
      export_format = export_format;
    })
core-IsSafe a s = record {
  typing = record {
    cursor = s.typing.cursor;
    lines = s.typing.lines;
    entries = s.typing.entries;
    recalled = s.typing.recalled;
    names = s.typing.names;
    idle = refl;
  };
  shown = s.shown;
}

-- Either branch of a test leaves a safe state.
either {ℓ} : {A : Type ℓ} (P : A → Type 0) (b : Bool) (x y : A) → P x → P y → P (if b then x else y)
either P true x y h k = h
either P false x y h k = k

abbrev Leaves : App × Action → Type 0
Leaves r = IsSafe r.0

sidebar-IsSafe : (a : App) (k : KeyCode) → IsSafe a → IsSafe (handle_sidebar_key a k).0
unfolding handle_sidebar_key
sidebar-IsSafe a up s = either Leaves (is_empty a.tables) _ _ s (core-IsSafe a s)
sidebar-IsSafe a down s = either Leaves (is_empty a.tables) _ _ s (core-IsSafe a s)
sidebar-IsSafe a enter s = elim (Option-cases (get_elem? a.tables a.selected_table)) [
  | inl e ↦ rw (e, handle_sidebar_key) s
  | inr (name, e) ↦ rw (e, handle_sidebar_key) s
]
sidebar-IsSafe a _ s = s

results-IsSafe : (a : App) (k : KeyCode) → IsSafe a → IsSafe (handle_results_key a k).0
unfolding handle_results_key
results-IsSafe a up s = core-IsSafe a s
results-IsSafe a down s = core-IsSafe a s
results-IsSafe a left s = core-IsSafe a s
results-IsSafe a right s = core-IsSafe a s
results-IsSafe a page_up s = core-IsSafe a s
results-IsSafe a page_down s = core-IsSafe a s
results-IsSafe a home s = core-IsSafe a s
results-IsSafe a end s = either Leaves (is_empty a.results.rows) _ _ s (core-IsSafe a s)
results-IsSafe a _ s = s

export-IsSafe :
    (write : List ℕ → List ℕ → Option (List ℕ)) (now : ℕ) (a : App) (k : KeyCode)
    → IsSafe a
    → IsSafe (handle_export_key write now a k)
unfolding handle_export_key
export-IsSafe write now a esc s = core-IsSafe a s
export-IsSafe write now a tab s = core-IsSafe a s
export-IsSafe write now a enter s = core-IsSafe a s
export-IsSafe write now a backspace s = core-IsSafe a s
export-IsSafe write now a (char c) s = core-IsSafe a s
export-IsSafe write now a _ s = s

focused_key-Ok :
    (a : App) (key : KeyEvent) (f : Focus)
    → KeyIsAscii key.code
    → IsSafe a
    → After IsSafe (focused_key a key f)
unfolding focused_key handle_query_key
focused_key-Ok a key Focus.query h s =
    After-IsSafe (query_key (record a { completion = none }) key.modifiers key.code)
      (query_key-Ok (record a { completion = none }) key.modifiers key.code h s.typing)
focused_key-Ok a key Focus.sidebar h s = sidebar-IsSafe a key.code s
focused_key-Ok a key Focus.results h s = results-IsSafe a key.code s

char_shortcut-Ok :
    (now : ℕ) (a : App) (key : KeyEvent) (c : ℕ)
    → KeyIsAscii key.code
    → IsSafe a
    → After IsSafe (char_shortcut now a key c)
unfolding char_shortcut
char_shortcut-Ok now a key c h s =
    either (After IsSafe) (is_control key.modifiers && (c == b'c' || c == b'q')) _ _ s (
      either (After IsSafe) (c == b'q' && not (is_query a.focus)) _ _ s (
        either (After IsSafe) (c == b'?' && not (is_query a.focus)) _ _ (core-IsSafe a s) (
          either (After IsSafe) (is_control key.modifiers && c == b's') _ _
            (either IsSafe (not (results_empty a.results) && not (is_empty a.results.headers)) _ _
              (core-IsSafe a s) (core-IsSafe a s))
            (either (After IsSafe) (is_control key.modifiers && c == b'l') _ _ (core-IsSafe a s)
              (focused_key-Ok a key a.focus h s)))))

module _ (to_uppercase to_lowercase : List ℕ → List ℕ) (is_lowercase : ℕ → Bool)
    (lowercase_ascii : (s : List ℕ) → IsAscii s → IsAscii (to_lowercase s)) where
  tab_key-Ok :
      (a : App) → IsSafe a → After IsSafe (tab_key to_uppercase to_lowercase is_lowercase a)
  unfolding tab_key
  tab_key-Ok a s =
      either (After IsSafe) (is_query a.focus) _ _
        (After-staying (tab_complete to_uppercase to_lowercase is_lowercase a)
          (tab_complete-Ok to_uppercase to_lowercase is_lowercase lowercase_ascii a s))
        (core-IsSafe a s)

  window_key-Ok :
      (now : ℕ) (a : App) (key : KeyEvent) (k : KeyCode)
      → KeyIsAscii key.code
      → IsSafe a
      → After IsSafe (window_key to_uppercase to_lowercase is_lowercase now a key k)
  unfolding window_key
  window_key-Ok now a key (char c) h s = char_shortcut-Ok now a key c h s
  window_key-Ok now a key (function_key n) h s =
      either (After IsSafe) (n == 1) _ _ (core-IsSafe a s) (focused_key-Ok a key a.focus h s)
  window_key-Ok now a key tab h s = tab_key-Ok a s
  window_key-Ok now a key back_tab h s =
      either (After IsSafe) (is_shift key.modifiers) _ _ (core-IsSafe a s)
        (focused_key-Ok a key a.focus h s)
  window_key-Ok now a key esc h s = core-IsSafe a s
  window_key-Ok now a key _ h s = focused_key-Ok a key a.focus h s

  module _ (write : List ℕ → List ℕ → Option (List ℕ)) where
    popup_key-Ok :
        (now : ℕ) (a : App) (key : KeyEvent) (p : Popup)
        → KeyIsAscii key.code
        → IsSafe a
        → After IsSafe (popup_key to_uppercase to_lowercase is_lowercase write now a key p)
    unfolding popup_key
    popup_key-Ok now a key help h s = either IsSafe (closes_help key.code) _ _ (core-IsSafe a s) s
    popup_key-Ok now a key export h s = export-IsSafe write now a key.code s
    popup_key-Ok now a key closed h s = window_key-Ok now a key key.code h s

-- The characters of a key, and the names that come between keys, are ASCII.
abbrev pub EventIsAscii : Event → Type 0
EventIsAscii (press now key) = KeyIsAscii key.code
EventIsAscii (between b) = All IsAscii b.tables × All IsAscii (column_names b.schema_cache)

meanwhile-IsSafe :
    (a b : App)
    → All IsAscii b.tables × All IsAscii (column_names b.schema_cache)
    → IsSafe a
    → IsSafe (meanwhile a b)
unfolding meanwhile
meanwhile-IsSafe a b h s = record {
  typing = record {
    cursor = s.typing.cursor;
    lines = s.typing.lines;
    entries = s.typing.entries;
    recalled = s.typing.recalled;
    names = h;
    idle = refl;
  };
  shown = s.shown;
}

-- A session goes on after a key that does not quit.
keep_on :
    (o : Option (App × Action)) (rest : App → Option App)
    → After IsSafe o
    → ((b : App) → IsSafe b → Ok IsSafe (rest b))
    → Ok IsSafe (o >>= λ r. if is_quit r.1 then some r.0 else rest r.0)
keep_on none rest h k = h
keep_on (some (b, action)) rest h k = either (Ok IsSafe) (is_quit action) _ _ h (k b h)

-- No session on ASCII panics: from a state with ASCII in its lines, history, tables and columns, its
-- cursor on a line, and a shown completion that starts before the cursor, any keys of ASCII
-- characters and anything that happens between them (with ASCII names of tables and columns) leave
-- such a state, with `to_lowercase` taking ASCII to ASCII.
pub session-Ok :
    (to_uppercase to_lowercase : List ℕ → List ℕ) (is_lowercase : ℕ → Bool)
    (write : List ℕ → List ℕ → Option (List ℕ)) (a : App) (events : List Event)
    → ((s : List ℕ) → IsAscii s → IsAscii (to_lowercase s))
    → IsSafe a
    → All EventIsAscii events
    → Ok IsSafe (session to_uppercase to_lowercase is_lowercase write a events)
unfolding session
session-Ok upper lower is_lower write a [] lowers s h = s
session-Ok upper lower is_lower write a (press now key ∷ events) lowers s h =
    keep_on (handle_key upper lower is_lower write now a key)
      (λ b. session upper lower is_lower write b events)
      (unfold handle_key in popup_key-Ok upper lower is_lower lowers write now a key a.popup h.0 s)
      (λ b k. session-Ok upper lower is_lower write b events lowers k h.1)
session-Ok upper lower is_lower write a (between b ∷ events) lowers s h =
    session-Ok upper lower is_lower write (meanwhile a b) events lowers (meanwhile-IsSafe a b h.0 s)
      h.1
