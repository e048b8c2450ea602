-- ===== src/Tui/Emptied.antt =====
-- Executing the text of the query window: the history and the empty input stay ASCII.
use mathlib.Core.List.{reverse, reverse-cons}
use potatodb.Prelude.{
  ℕ, ◌-◌, refl, Bool-cases, List, [], ◌∷◌, ◌++◌, length, All, All-append, drop, is_empty, ltb,
  if◌then◌else◌, inl, inr, arith,
}
use potatodb.Sql.Text.{trim, trim_start, is_whitespace}
use potatodb.Tui.Line.{IsAscii, IsAscii-append}
use potatodb.Tui.App.{App}
use potatodb.Tui.Completion.{column_names}
use potatodb.Tui.Vectors.{All-drop, join_lines_ascii}
use potatodb.Tui.History.{
  push_entry, save_history_entry, clear_input, input_text, try_execute, last_is, history_max,
}
use potatodb.Tui.Typing.{Below, IsTyping}

IsAscii-reverse : (s : List ℕ) → IsAscii s → IsAscii (reverse s)
IsAscii-reverse [] h = tt
IsAscii-reverse (c ∷ s) h =
    rw (reverse-cons c s) (IsAscii-append (reverse s) (c ∷ []) (IsAscii-reverse s h.1) (h.0, tt))

IsAscii-trim_start : (s : List ℕ) → IsAscii s → IsAscii (trim_start s)
unfolding trim_start
IsAscii-trim_start [] h = tt
IsAscii-trim_start (c ∷ s) h = elim (Bool-cases (is_whitespace c)) [
  | inl e ↦ rw e (IsAscii-trim_start s h.1)
  | inr e ↦ rw e h
]

IsAscii-trim : (s : List ℕ) → IsAscii s → IsAscii (trim s)
unfolding trim
IsAscii-trim s h =
    IsAscii-reverse _ (IsAscii-trim_start _ (IsAscii-reverse _ (IsAscii-trim_start s h)))

push_entry_ascii :
    (history : List (List ℕ)) (entry : List ℕ)
    → All IsAscii history
    → IsAscii entry
    → All IsAscii (push_entry history entry)
unfolding push_entry
push_entry_ascii history entry h k = elim (Bool-cases (last_is history entry)) [
  | inl e ↦ rw e (shorten history h)
  | inr e ↦
      rw e (shorten (history ++ entry ∷ []) (All-append IsAscii history (entry ∷ []) h (k, tt)))
]
  where
    shorten :
        (xs : List (List ℕ))
        → All IsAscii xs
        → All IsAscii
            (if ltb history_max (length xs) then drop (length xs - history_max) xs else xs)
    shorten xs h = elim (Bool-cases (ltb history_max (length xs))) [
      | inl e ↦ rw e (All-drop IsAscii (length xs - history_max) xs h)
      | inr e ↦ rw e h
    ]

-- The input is empty afterwards, whatever it was.
pub clear_input-Ok :
    (a : App)
    → All IsAscii a.history
    → Below a.history_pos (length a.history)
    → All IsAscii a.tables × All IsAscii (column_names a.schema_cache)
    → IsTyping (clear_input a)
unfolding clear_input
clear_input-Ok a h k names = record {
  cursor = ([], refl, omega arith);
  lines = (tt, tt);
  entries = h;
  names = names;
  recalled = k;
  idle = refl;
}

saved-Ok :
    (a : App) (sql : List ℕ)
    → IsTyping a
    → IsAscii sql
    → IsTyping (clear_input (save_history_entry sql a))
unfolding save_history_entry
saved-Ok a sql t h = elim (Bool-cases (is_empty (trim sql))) [
  | inl e ↦ rw e (clear_input-Ok a t.entries t.recalled t.names)
  | inr e ↦ rw e (
      clear_input-Ok _ (push_entry_ascii a.history (trim sql) t.entries (IsAscii-trim sql h)) tt
        t.names)
]

pub try_execute-Ok : (a : App) → IsTyping a → IsTyping (try_execute a).0
unfolding try_execute
try_execute-Ok a t =
    let raw = join_lines_ascii a.input_lines t.lines in
    let cleared = saved-Ok a (input_text a) t (unfold input_text in raw) in
    ground (arith, cleared, t)
