-- ===== src/Tests/Terminal.antt =====
-- The theorems about the terminal interface at a small state.
use potatodb.Prelude.{ℕ, ◌≡◌, refl, none, some, Option, false, List, [], ◌∷◌, arith, map}
use potatodb.Tui.App.{App, Focus, Popup, plain, tab, backspace}
use potatodb.Tui.Completion.{column_names}
use potatodb.Tui.Query.{handle_query_key, staying}
use potatodb.Tui.Keys.{Event, press, session}
use potatodb.Tui.Typing.{Ok}
use potatodb.Tui.Offered.{IsSafe}
use potatodb.Tui.Safe.{session-Ok}
use potatodb.Tui.Panics.{typed, handle_query_key-panics}

-- SE, with the cursor behind it, and a table `t`.
abbrev state : App
state = record {
  focus = Focus.query;
  input_lines = (b'S' ∷ b'E' ∷ []) ∷ [];
  cursor_row = 0;
  cursor_col = 2;
  results = record { headers = []; rows = []; message = none };
  selected_row = none;
  h_scroll = 0;
  visible_height = 20;
  history = [];
  history_pos = none;
  tables = (b't' ∷ []) ∷ [];
  selected_table = 0;
  schema_cache = [];
  popup = Popup.closed;
  toast = none;
  export_path = [];
  export_format = 0;
  completion = none;
}

state-IsSafe : IsSafe state
unfolding column_names
state-IsSafe = record {
  typing = record {
    cursor = (b'S' ∷ b'E' ∷ [], refl, omega arith);
    lines = omega arith;
    entries = tt;
    recalled = tt;
    names = (omega arith, tt);
    idle = refl;
  };
  shown = tt;
}

-- Tab, Tab, Backspace.
abbrev keys : List Event
keys =
    map (λ code. press 0 (record { modifiers = plain; code = code })) (tab ∷ tab ∷ backspace ∷ [])

abbrev same : List ℕ → List ℕ
same s = s

session-Ok_example : Ok IsSafe (session same same (λ c. false) (λ path content. none) state keys)
session-Ok_example =
    session-Ok same same (λ c. false) (λ path content. none) state keys (λ s h. h) state-IsSafe
      (tt, (tt, (tt, tt)))

abbrev lines_of : Option App → List (List ℕ)
lines_of none = []
lines_of (some a) = a.input_lines

-- é, and then any character.
handle_query_key-panics_example :
    (b : App) × (handle_query_key state (typed 0xE9) ≡ staying b)
    × (handle_query_key b (typed b'x') ≡ none)
handle_query_key-panics_example = handle_query_key-panics state 0xE9 b'x' state-IsSafe (omega arith)
