-- ===== src/Tui/Panes.antt =====
-- `handle_sidebar_key` and `handle_results_key` of crates/tui/src/lib.rs.
use potatodb.Prelude.{ℕ, ◌+◌, ◌-◌, ◌/◌, none, some, length, get_elem?, is_empty, if◌then◌else◌, min}
use potatodb.Tui.App.{
  App, Action, stay, preview_table, KeyCode, enter, up, down, left, right, home, end, page_up,
  page_down,
}

unfoldable pub handle_sidebar_key : App → KeyCode → App × Action
handle_sidebar_key a up =
    if is_empty a.tables
    then (a, stay)
    else (record a { selected_table = a.selected_table - 1 }, stay)
handle_sidebar_key a down =
    if is_empty a.tables
    then (a, stay)
    else (record a { selected_table = min (a.selected_table + 1) (length a.tables - 1) }, stay)
handle_sidebar_key a enter = elim (get_elem? a.tables a.selected_table) [
  | none ↦ (a, stay)
  | some name ↦ (a, preview_table name)
]
handle_sidebar_key a _ = (a, stay)

-- `n` rows up, and `n` rows down but not past the last; the first row where none is selected.
abbrev pub select_up : App → ℕ → ℕ
select_up a n = elim a.selected_row [ none ↦ 0 | some s ↦ s - n ]

abbrev pub select_down : App → ℕ → ℕ
select_down a n = elim a.selected_row [
  | none ↦ 0
  | some s ↦ min (s + n) (length a.results.rows - 1)
]

abbrev pub select : App → ℕ → App × Action
select a row = (record a { selected_row = some row }, stay)

unfoldable pub handle_results_key : App → KeyCode → App × Action
handle_results_key a up = select a (select_up a 1)
handle_results_key a down = select a (select_down a 1)
handle_results_key a left = (record a { h_scroll = a.h_scroll - 1 }, stay)
handle_results_key a right =
    (record a { h_scroll = min (a.h_scroll + 1) (length a.results.headers - 1) }, stay)
handle_results_key a page_up = select a (select_up a (a.visible_height / 2))
handle_results_key a page_down = select a (select_down a (a.visible_height / 2))
handle_results_key a home = select a 0
handle_results_key a end =
    if is_empty a.results.rows then (a, stay) else select a (length a.results.rows - 1)
handle_results_key a _ = (a, stay)
