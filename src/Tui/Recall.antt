-- ===== src/Tui/Recall.antt =====
-- The keys Up and Down of the query window, which move between lines and recall entries.
use potatodb.Prelude.{
  ℕ, ◌+◌, ◌-◌, ◌<◌, ◌≡◌, false, Bool-cases, Option, none, some, List, [], ◌∷◌, length, get_elem?,
  is_empty, ltb, ltb→lt, inl, inr, arith,
}
use potatodb.Tui.Line.{byte_len, IsAscii, byte_len_ascii}
use potatodb.Tui.App.{App}
use potatodb.Tui.Panic.{◌>>=◌, split_lines}
use potatodb.Tui.Vectors.{
  All-get_elem?, get_elem?_lt, lt_of_get_elem?, length-split_lines, split_lines_ascii,
}
use potatodb.Tui.Query.{previous, recall_older, on_up, recall_newer, on_down}
use potatodb.Tui.Typing.{On, Below, IsTyping, Ok, to_row-Ok}
use potatodb.Tui.Emptied.{clear_input-Ok}

recall-Ok :
    (a : App) (entry : List ℕ) (idx row col : ℕ)
    → get_elem? a.history idx ≡ some entry
    → On (split_lines entry) row col
    → IsTyping a
    → IsTyping (record a {
      input_lines = split_lines entry;
      cursor_row = row;
      cursor_col = col;
      history_pos = some idx;
    })
recall-Ok a entry idx row col at on t = record {
  cursor = on;
  lines = split_lines_ascii entry (All-get_elem? IsAscii a.history idx t.entries at);
  entries = t.entries;
  names = t.names;
  recalled = lt_of_get_elem? a.history idx at;
  idle = t.idle;
}

previous-lt : (pos : Option ℕ) (n : ℕ) → Below pos n → 0 < n → previous pos n < n
previous-lt none n h k = omega arith
previous-lt (some i) n h k = ground arith

recall_older-Ok : (a : App) → 0 < length a.history → IsTyping a → Ok IsTyping (recall_older a)
unfolding recall_older
recall_older-Ok a h t =
    let idx = previous a.history_pos (length a.history) in
    let (entry, at) =
      get_elem?_lt a.history idx (previous-lt a.history_pos (length a.history) t.recalled h) in
    let lines = split_lines entry in
    let (line, last) =
      get_elem?_lt lines (length lines - 1) (omega (arith, length-split_lines entry)) in
    let ascii =
      All-get_elem? IsAscii lines (length lines - 1)
        (split_lines_ascii entry (All-get_elem? IsAscii a.history idx t.entries at)) last in
    rw (at, ◌>>=◌)
      (rw (last, ◌>>=◌)
        (recall-Ok a entry idx (length lines - 1) (byte_len line) at
          (line, last, omega (arith, byte_len_ascii line ascii)) t))

pub on_up-Ok : (a : App) → IsTyping a → Ok IsTyping (on_up a)
unfolding on_up
on_up-Ok a t = elim (Bool-cases (ltb 0 a.cursor_row)) [
  | inl e ↦
      let (line, at, inside) = t.cursor in
      rw e (
        to_row-Ok a (a.cursor_row - 1)
          (omega (arith, lt_of_get_elem? a.input_lines a.cursor_row at)) t)
  | inr e ↦ elim (Bool-cases (is_empty a.history)) [
    | inl none_yet ↦ rw (e, none_yet) t
    | inr old ↦ rw (e, old) (recall_older-Ok a (nonempty a.history old) t)
  ]
]
  where
    nonempty : (h : List (List ℕ)) → is_empty h ≡ false → 0 < length h
    nonempty [] e = cc
    nonempty (x ∷ h) e = omega arith

recall_newer-Ok : (a : App) (idx : ℕ) → IsTyping a → Ok IsTyping (recall_newer idx a)
unfolding recall_newer
recall_newer-Ok a idx t = elim (Bool-cases (ltb (idx + 1) (length a.history))) [
  | inl e ↦
      let (entry, at) = get_elem?_lt a.history (idx + 1) (ltb→lt _ _ e) in
      let (line, first) = get_elem?_lt (split_lines entry) 0 (length-split_lines entry) in
      rw e (rw (at, ◌>>=◌) (recall-Ok a entry (idx + 1) 0 0 at (line, first, omega arith) t))
  | inr e ↦ rw e (clear_input-Ok (record a { history_pos = none }) t.entries tt t.names)
]

pub on_down-Ok : (a : App) → IsTyping a → Ok IsTyping (on_down a)
unfolding on_down
on_down-Ok a t = elim (Bool-cases (ltb (a.cursor_row + 1) (length a.input_lines))) [
  | inl e ↦ rw e (to_row-Ok a (a.cursor_row + 1) (ltb→lt _ _ e) t)
  | inr e ↦ rw e (recall a.history_pos)
]
  where
    recall :
        (pos : Option ℕ) → Ok IsTyping (elim pos [ none ↦ some a | some idx ↦ recall_newer idx a ])
    recall none = t
    recall (some idx) = recall_newer-Ok a idx t
