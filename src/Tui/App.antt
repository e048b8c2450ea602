-- ===== src/Tui/App.antt =====
-- The state of the terminal interface. What only drawing reads is left out: status, times, theme,
-- spinner, areas, column widths and the title's URL; so is the history file. `schema_cache` holds the
-- names and types of columns under names of tables.
use potatodb.Prelude.{ℕ, Bool, true, false, Option, none, some, List, ◌&&◌, is_empty}

pub data Focus : Type 0 where
  sidebar results query : Focus

unfoldable pub next : Focus → Focus
next sidebar = results
next results = query
next query = sidebar

unfoldable pub prev : Focus → Focus
prev sidebar = query
prev results = sidebar
prev query = results

pub data Action : Type 0 where
  stay : Action
  execute : List ℕ → Action
  preview_table : List ℕ → Action
  quit : Action

pub data Popup : Type 0 where
  closed help export : Popup

-- The texts of the toasts, with what they show.
pub data Message : Type 0 where
  no_results : Message
  exported : (rows : ℕ) (path : List ℕ) → Message
  export_failed : (error : List ℕ) → Message

pub record Toast : Type 0 where
  pub message : Message
  pub expires : ℕ

pub record QueryResults : Type 0 where
  pub headers : List (List ℕ)
  pub rows : List (List (List ℕ))
  pub message : Option (List ℕ)

pub record Completion : Type 0 where
  pub start_col : ℕ
  pub candidates : List (List ℕ)
  pub index : ℕ

pub record App : Type 0 where
  pub focus : Focus
  pub input_lines : List (List ℕ)
  pub cursor_row : ℕ
  pub cursor_col : ℕ
  pub results : QueryResults
  pub selected_row : Option ℕ
  pub h_scroll : ℕ
  pub visible_height : ℕ
  pub history : List (List ℕ)
  pub history_pos : Option ℕ
  pub tables : List (List ℕ)
  pub selected_table : ℕ
  pub schema_cache : List (List ℕ × List (List ℕ × List ℕ))
  pub popup : Popup
  pub toast : Option Toast
  pub export_path : List ℕ
  pub export_format : ℕ
  pub completion : Option Completion

-- `crossterm`'s events, as far as the code tells them apart. `control` and the others are exactly
-- that one modifier.
pub data Modifiers : Type 0 where
  plain shift control alt other : Modifiers

pub data KeyCode : Type 0 where
  enter tab back_tab esc backspace delete up down left right home end page_up page_down : KeyCode
  function_key : ℕ → KeyCode
  char : ℕ → KeyCode
  unhandled : KeyCode

pub record KeyEvent : Type 0 where
  pub modifiers : Modifiers
  pub code : KeyCode

abbrev pub is_control : Modifiers → Bool
is_control control = true
is_control _ = false

abbrev pub is_shift : Modifiers → Bool
is_shift shift = true
is_shift _ = false

abbrev pub is_query : Focus → Bool
is_query query = true
is_query _ = false

abbrev pub is_none {ℓ} : {A : Type ℓ} → Option A → Bool
is_none none = true
is_none (some x) = false

-- `QueryResults::is_empty`
unfoldable pub results_empty : QueryResults → Bool
results_empty r = is_empty r.headers && is_none r.message
