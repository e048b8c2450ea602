-- ===== src/Tui/Typing.antt =====
-- The keys of the query window: in ASCII none of them panics, and the cursor stays on a line.
use potatodb.Prelude.{
  ℕ, ◌+◌, ◌-◌, ◌≤◌, ◌<◌, ◌≡◌, refl, ap, ◌∙◌, Option, none, some, List, [], ◌∷◌, ◌++◌, length,
  length-append, length-take, length-drop, get_elem?, All, take, drop, arith,
}
use potatodb.Tui.Line.{
  slice_from, slice_to, truncate, insert_str, remove, without_next, IsAscii, byte_len_ascii,
  split_at_ascii, IsAscii-append, IsAscii-take, IsAscii-drop,
}
use potatodb.Tui.App.{App}
use potatodb.Tui.Completion.{column_names}
use potatodb.Tui.Panic.{◌>>=◌, set, remove_at}
use potatodb.Tui.Vectors.{
  All-get_elem?, get_elem?_lt, lt_of_get_elem?, get_elem?-set, length-set, All-set, insert_at_lem,
  remove_at_lem,
}
use potatodb.Tui.Query.{
  edit_line, break_line, kill_to_start, kill_to_end, to_row, to_end_of, join_rows, on_char,
}

-- The cursor is on a line, and no further than its end.
abbrev pub On : List (List ℕ) → ℕ → ℕ → Type 0
On lines row col = (line : List ℕ) × (get_elem? lines row ≡ some line) × (col ≤ length line)

abbrev pub Below : Option ℕ → ℕ → Type 0
Below none n = Unit {0}
Below (some i) n = i < n

-- While a key of the query window is handled no completion is shown.
pub record IsTyping (a : App) : Type 0 where
  pub cursor : On a.input_lines a.cursor_row a.cursor_col
  pub lines : All IsAscii a.input_lines
  pub entries : All IsAscii a.history
  pub recalled : Below a.history_pos (length a.history)
  pub names : All IsAscii a.tables × All IsAscii (column_names a.schema_cache)
  pub idle : a.completion ≡ none

-- No panic, and the property of the state that is left.
abbrev pub Ok : (App → Type 0) → Option App → Type 0
Ok P none = ⊥
Ok P (some a) = P a

-- What an edit has to do to the line.
abbrev pub Edits : (List ℕ → Option (List ℕ)) → List ℕ → ℕ → Type 0
Edits edit line col =
    (line' : List ℕ) × (edit line ≡ some line') × IsAscii line' × (col ≤ length line')

pub edit_line-Ok :
    (a : App) (edit : List ℕ → Option (List ℕ)) (col : ℕ)
    → IsTyping a
    → ((line : List ℕ) → a.cursor_col ≤ length line → IsAscii line → Edits edit line col)
    → Ok IsTyping (edit_line a edit col)
unfolding edit_line
edit_line-Ok a edit col t h =
    let (line, at, inside) = t.cursor in
    let (line', done, ascii, bound) =
      h line inside (All-get_elem? IsAscii a.input_lines a.cursor_row t.lines at) in
    rw (at, ◌>>=◌)
      (rw (done, ◌>>=◌)
        (record {
          cursor = (line', get_elem?-set a.input_lines a.cursor_row line' at, bound);
          lines = All-set IsAscii a.input_lines a.cursor_row line' t.lines ascii;
          entries = t.entries;
          names = t.names;
          recalled = t.recalled;
          idle = t.idle;
        }))

pub on_char-Ok : (a : App) (c : ℕ) → c < 0x80 → IsTyping a → Ok IsTyping (on_char a c)
unfolding on_char insert_str
on_char-Ok a c small t =
    edit_line-Ok a (λ line. insert_str line a.cursor_col (c ∷ [])) (a.cursor_col + 1) t
      λ line inside ascii. (
        take a.cursor_col line ++ c ∷ drop a.cursor_col line,
        rw (split_at_ascii line a.cursor_col ascii inside) refl,
        IsAscii-append (take a.cursor_col line) (c ∷ drop a.cursor_col line)
            (IsAscii-take a.cursor_col line ascii) (small, IsAscii-drop a.cursor_col line ascii),
        omega (
          arith,
          length-append (take a.cursor_col line) (c ∷ drop a.cursor_col line),
          length-take a.cursor_col line,
        ),
      )

slice_from_ascii :
    (s : List ℕ) (n : ℕ) → IsAscii s → n ≤ length s → slice_from s n ≡ some (drop n s)
unfolding slice_from
slice_from_ascii s n h k = rw (split_at_ascii s n h k) refl

truncate_ascii : (s : List ℕ) (n : ℕ) → IsAscii s → n ≤ length s → truncate s n ≡ some (take n s)
unfolding truncate slice_to
truncate_ascii s n h k = rw (split_at_ascii s n h k) (ground (arith, byte_len_ascii s h))

pub kill_to_start-Ok : (a : App) → IsTyping a → Ok IsTyping (kill_to_start a)
unfolding kill_to_start
kill_to_start-Ok a t =
    edit_line-Ok a (λ line. slice_from line a.cursor_col) 0 t
      λ line inside ascii. (
        drop a.cursor_col line,
        slice_from_ascii line a.cursor_col ascii inside,
        IsAscii-drop a.cursor_col line ascii,
        omega arith,
      )

pub kill_to_end-Ok : (a : App) → IsTyping a → Ok IsTyping (kill_to_end a)
unfolding kill_to_end
kill_to_end-Ok a t =
    edit_line-Ok a (λ line. truncate line a.cursor_col) a.cursor_col t
      λ line inside ascii. (
        take a.cursor_col line,
        truncate_ascii line a.cursor_col ascii inside,
        IsAscii-take a.cursor_col line ascii,
        omega (arith, length-take a.cursor_col line),
      )

-- A character that stands at a position is removed.
pub remove_ascii :
    (s : List ℕ) (n : ℕ)
    → IsAscii s
    → n < length s
    → (s' : List ℕ) × (remove s n ≡ some s') × IsAscii s' × (n ≤ length s')
unfolding remove
remove_ascii s n h k = rw (split_at_ascii s n h (omega arith)) (
    after (drop n s) (take n s) n (omega (arith, length-drop n s)) (IsAscii-take n s h)
      (IsAscii-drop n s h) (omega (arith, length-take n s)))
  where
    after :
        (b a : List ℕ) (n : ℕ)
        → 0 < length b
        → IsAscii a
        → IsAscii b
        → n ≤ length a
        → (s' : List ℕ) × (without_next (some (a, b)) ≡ some s') × IsAscii s' × (n ≤ length s')
    after [] a n h p q k = absurd (omega arith)
    after (c ∷ b) a n h p q k =
        (a ++ b, refl, IsAscii-append a b p q.1, omega (arith, length-append a b))

pub backspace_in_line :
    (a : App)
    → 0 < a.cursor_col
    → IsTyping a
    → Ok IsTyping (edit_line a (λ line. remove line (a.cursor_col - 1)) (a.cursor_col - 1))
backspace_in_line a pos t =
    edit_line-Ok a (λ line. remove line (a.cursor_col - 1)) (a.cursor_col - 1) t
      λ line inside ascii. remove_ascii line (a.cursor_col - 1) ascii (omega arith)

pub break_line-Ok : (a : App) → IsTyping a → Ok IsTyping (break_line a)
unfolding break_line
break_line-Ok a t =
    let (line, at, inside) = t.cursor in
    let ascii = All-get_elem? IsAscii a.input_lines a.cursor_row t.lines at in
    let front = take a.cursor_col line in
    let rest = drop a.cursor_col line in
    let lines1 = set a.input_lines a.cursor_row front in
    let (lines2, done, at2, all2) =
      insert_at_lem IsAscii lines1 (a.cursor_row + 1) rest
        (omega (
          arith,
          length-set a.input_lines a.cursor_row front,
          lt_of_get_elem? a.input_lines a.cursor_row at,
        ))
        (All-set IsAscii a.input_lines a.cursor_row front t.lines
          (IsAscii-take a.cursor_col line ascii))
        (IsAscii-drop a.cursor_col line ascii) in
    rw (at, ◌>>=◌)
      (rw (slice_from_ascii line a.cursor_col ascii inside, ◌>>=◌)
        (rw (truncate_ascii line a.cursor_col ascii inside, ◌>>=◌)
          (rw (done, ◌>>=◌)
            (record {
              cursor = (rest, at2, omega arith);
              lines = all2;
              entries = t.entries;
              names = t.names;
              recalled = t.recalled;
              idle = t.idle;
            }))))

pub to_row-Ok :
    (a : App) (row : ℕ) → row < length a.input_lines → IsTyping a → Ok IsTyping (to_row a row)
unfolding to_row
to_row-Ok a row h t =
    let (line, at) = get_elem?_lt a.input_lines row h in
    let ascii = All-get_elem? IsAscii a.input_lines row t.lines at in
    rw (at, ◌>>=◌)
      (record {
        cursor = (line, at, omega (arith, byte_len_ascii line ascii));
        lines = t.lines;
        entries = t.entries;
        names = t.names;
        recalled = t.recalled;
        idle = t.idle;
      })

pub to_end_of-Ok :
    (a : App) (row : ℕ) → row < length a.input_lines → IsTyping a → Ok IsTyping (to_end_of a row)
unfolding to_end_of
to_end_of-Ok a row h t =
    let (line, at) = get_elem?_lt a.input_lines row h in
    let ascii = All-get_elem? IsAscii a.input_lines row t.lines at in
    rw (at, ◌>>=◌)
      (record {
        cursor = (line, at, omega (arith, byte_len_ascii line ascii));
        lines = t.lines;
        entries = t.entries;
        names = t.names;
        recalled = t.recalled;
        idle = t.idle;
      })

pub join_rows-Ok :
    (a : App) (row : ℕ) (col : List ℕ → ℕ)
    → row + 1 < length a.input_lines
    → ((line : List ℕ)
        → get_elem? a.input_lines row ≡ some line
        → IsAscii line
        → col line ≤ length line)
    → IsTyping a
    → Ok IsTyping (join_rows a row col)
unfolding join_rows
join_rows-Ok a row col h inside t =
    let (lines, removed, done, at, all, ascii) =
      remove_at_lem IsAscii a.input_lines row (omega arith) t.lines in
    let (line, here) = get_elem?_lt a.input_lines row (omega arith) in
    let line_ascii = All-get_elem? IsAscii a.input_lines row t.lines here in
    let both = line ++ removed in
    let step : remove_at a.input_lines (row + 1) ≡ some (lines, removed) =
      ap (remove_at a.input_lines) (omega arith) ∙ done in
    rw (step, ◌>>=◌)
      (rw (at ∙ here, ◌>>=◌)
        (record {
          cursor = (
            both,
            get_elem?-set lines row both (at ∙ here),
            omega (arith, length-append line removed, inside line here line_ascii),
          );
          lines = All-set IsAscii lines row both all (IsAscii-append line removed line_ascii ascii);
          entries = t.entries;
          names = t.names;
          recalled = t.recalled;
          idle = t.idle;
        }))
