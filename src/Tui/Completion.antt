-- ===== src/Tui/Completion.antt =====
-- Completion of words in crates/tui/src/lib.rs: `word_before_cursor`, `build_candidates` and
-- `tab_complete`. Rust's `to_uppercase`, `to_lowercase` and `is_lowercase` are parameters.
use potatodb.Prelude.{
  ℕ, ◌+◌, ◌%◌, Bool, true, false, ◌&&◌, ◌||◌, Option, none, some, List, [], ◌∷◌, ◌++◌, map, length,
  get_elem?, filter, head?, is_empty, ltb, leb, ◌==◌, if◌then◌else◌,
}
use potatodb.Tui.Line.{byte_len, len_utf8, slice_from, slice_to, insert_str, replace_range}
use potatodb.Tui.App.{App, Completion}
use potatodb.Tui.Panic.{◌>>=◌, set}
use potatodb.Tui.History.{text_eq}
use potatodb.Tui.Keywords.{sql_keywords}

-- `c.is_ascii_alphanumeric() || c == '_'`
unfoldable pub word_char : ℕ → Bool
word_char c =
    (leb b'0' c && leb c b'9')
    || (leb b'A' c && leb c b'Z')
    || (leb b'a' c && leb c b'z')
    || c == b'_'

-- One more than the position of the last character that is in no word; 0 if there is none.
unfoldable pub word_start : List ℕ → ℕ → ℕ → ℕ
unfolding word_char len_utf8
word_start [] at found = found
word_start (c ∷ s) at found = word_start s (at + len_utf8 c) (if word_char c then found else at + 1)

-- The second slice panics where the word stands behind a character of several bytes.
unfoldable pub word_before_cursor : App → Option (ℕ × List ℕ)
unfolding slice_to slice_from word_start
word_before_cursor a = do
  line ← get_elem? a.input_lines a.cursor_row
  front ← slice_to line a.cursor_col
  prefix ← slice_from front (word_start front 0 0)
  some (word_start front 0 0, prefix)

unfoldable pub starts_with : List ℕ → List ℕ → Bool
starts_with s [] = true
starts_with [] (c ∷ p) = false
starts_with (d ∷ s) (c ∷ p) = (d == c) && starts_with s p

unfoldable pub contains : List (List ℕ) → List ℕ → Bool
unfolding text_eq
contains [] x = false
contains (y ∷ ys) x = text_eq y x || contains ys x

-- `seen` and `out` hold the same texts.
unfoldable pub push_unseen : List (List ℕ) → List (List ℕ) → List (List ℕ)
unfolding contains
push_unseen out [] = out
push_unseen out (x ∷ xs) = push_unseen (if contains out x then out else out ++ x ∷ []) xs

unfoldable pub column_names : List (List ℕ × List (List ℕ × List ℕ)) → List (List ℕ)
column_names [] = []
column_names ((table, cols) ∷ cache) = map (λ (c : List ℕ × List ℕ). c.0) cols ++ column_names cache

-- The order of strings.
unfoldable pub less : List ℕ → List ℕ → Bool
less s [] = false
less [] (d ∷ t) = true
less (c ∷ s) (d ∷ t) = ltb c d || ((c == d) && less s t)

-- Tables come first, and then the order of strings decides.
unfoldable pub before : List (List ℕ) → List ℕ → List ℕ → Bool
unfolding less contains
before tables a b =
    if contains tables a
    then if contains tables b then less a b else true
    else if contains tables b
    then false
    else less a b

-- `sort_by`
unfoldable pub insert_sorted : List (List ℕ) → List ℕ → List (List ℕ) → List (List ℕ)
unfolding before
insert_sorted tables x [] = x ∷ []
insert_sorted tables x (y ∷ ys) =
    let rest = insert_sorted tables x ys in if before tables y x then y ∷ rest else x ∷ y ∷ ys

unfoldable pub sort : List (List ℕ) → List (List ℕ) → List (List ℕ)
unfolding insert_sorted
sort tables [] = []
sort tables (x ∷ xs) = insert_sorted tables x (sort tables xs)

abbrev starts_lowercase : (ℕ → Bool) → Option ℕ → Bool
starts_lowercase is_lowercase none = false
starts_lowercase is_lowercase (some c) = is_lowercase c

module _ (to_uppercase to_lowercase : List ℕ → List ℕ) (is_lowercase : ℕ → Bool) where
  abbrev pub matches : List ℕ → List ℕ → Bool
  matches prefix x = starts_with (to_uppercase x) (to_uppercase prefix)

  abbrev pub display : List ℕ → List ℕ → List ℕ
  display prefix kw = if starts_lowercase is_lowercase (head? prefix) then to_lowercase kw else kw

  unfoldable pub build_candidates : App → List ℕ → List (List ℕ)
  unfolding starts_with push_unseen sort column_names
  build_candidates a prefix =
      let tables = filter (matches prefix) a.tables in
      let columns = filter (matches prefix) (column_names a.schema_cache) in
      let keywords =
        map (display prefix) (filter (λ kw. starts_with kw (to_uppercase prefix)) sql_keywords) in
      sort a.tables (push_unseen (push_unseen (push_unseen [] tables) columns) keywords)

  -- The next candidate takes the place of the one that is shown.
  unfoldable pub cycle : Completion → App → Option App
  unfolding replace_range insert_str set byte_len
  cycle comp a =
      let index = (comp.index + 1) % length comp.candidates in
      if is_empty comp.candidates
      then some (record a { completion = none })
      else get_elem? a.input_lines a.cursor_row >>= λ line.
          replace_range line comp.start_col a.cursor_col [] >>= λ line'.
          get_elem? comp.candidates index >>= λ next.
          insert_str line' comp.start_col next >>= λ line''. some (record a {
            input_lines = set a.input_lines a.cursor_row line'';
            cursor_col = comp.start_col + byte_len next;
            completion = some (record comp { index = index });
          })

  unfoldable pub complete : App → ℕ → List (List ℕ) → Option App
  unfolding replace_range set byte_len
  complete a start_col [] = some a
  complete a start_col (first ∷ others) = do
    line ← get_elem? a.input_lines a.cursor_row
    line' ← replace_range line start_col a.cursor_col first
    some (record a {
      input_lines = set a.input_lines a.cursor_row line';
      cursor_col = start_col + byte_len first;
      completion = some (record { start_col = start_col; candidates = first ∷ others; index = 0 });
    })

  unfoldable pub start_completion : App → Option App
  unfolding word_before_cursor build_candidates complete
  start_completion a = word_before_cursor a >>= λ w.
      if is_empty w.1 then some a else complete a w.0 (build_candidates a w.1)

  unfoldable pub tab_complete : App → Option App
  unfolding cycle start_completion
  tab_complete a = elim a.completion [ some comp ↦ cycle comp a | none ↦ start_completion a ]
