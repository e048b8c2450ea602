-- ===== src/Tui/Panics.antt =====
-- Where the terminal interface does panic: characters of several bytes.
use potatodb.Prelude.{
  ℕ, zero, suc, ◌+◌, ◌≤◌, ◌≡◌, refl, none, List, [], ◌∷◌, ◌++◌, length, length-take, take, drop,
  arith,
}
use potatodb.Tui.Line.{len_utf8, split_at, insert_str, IsAscii, IsAscii-take, split_at_ascii}
use potatodb.Tui.App.{App, KeyEvent, char, plain}
use potatodb.Tui.Panic.{◌>>=◌, set}
use potatodb.Tui.Vectors.{All-get_elem?, get_elem?-set}
use potatodb.Tui.Query.{handle_query_key, query_key, char_key, on_char, edit_line, staying}
use potatodb.Tui.Offered.{IsSafe}

-- One byte behind the start of a character of several bytes is no boundary.
split_at_inside :
    (p q : List ℕ) (c n : ℕ)
    → IsAscii p
    → n ≡ length p + 1
    → 0x80 ≤ c
    → split_at (p ++ c ∷ q) n ≡ none
unfolding split_at len_utf8
split_at_inside p q c zero h e k = absurd (omega arith)
split_at_inside [] q c (suc n) h e k = ground (arith, k)
split_at_inside (b ∷ p) q c (suc n) h e k =
    ground (arith, h.0, split_at_inside p q c n h.1 (omega arith) k)

abbrev pub typed : ℕ → KeyEvent
typed c = record { modifiers = plain; code = char c }

-- In a safe state of the query window, a character outside ASCII is inserted, and whatever character
-- is typed next panics: the cursor was moved by one byte, into the first.
pub handle_query_key-panics :
    (a : App) (c d : ℕ)
    → IsSafe a
    → 0x80 ≤ c
    → (b : App) × (handle_query_key a (typed c) ≡ staying b) × (handle_query_key b (typed d) ≡ none)
unfolding handle_query_key query_key char_key on_char edit_line insert_str
handle_query_key-panics a c d s big =
    let (line, at, inside) = s.typing.cursor in
    let ascii = All-get_elem? IsAscii a.input_lines a.cursor_row s.typing.lines at in
    let front = take a.cursor_col line in
    let line' = front ++ (c ∷ drop a.cursor_col line) in
    let b : App = record a {
      input_lines = set a.input_lines a.cursor_row line';
      cursor_col = a.cursor_col + 1;
      completion = none;
    } in
    (
      b,
      rw (at, ◌>>=◌) (rw (split_at_ascii line a.cursor_col ascii inside, ◌>>=◌) refl),
      rw (get_elem?-set a.input_lines a.cursor_row line' at, ◌>>=◌)
          (rw
            (
              split_at_inside front (drop a.cursor_col line) c (a.cursor_col + 1)
                  (IsAscii-take a.cursor_col line ascii)
                  (omega (arith, length-take a.cursor_col line)) big,
              ◌>>=◌,
            )
            refl),
    )
