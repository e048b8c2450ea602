-- ===== src/Tui/Offered.antt =====
-- Completion in ASCII: no panic, and the cursor stays on its line.
use potatodb.Prelude.{
  ℕ, ◌+◌, ◌%◌, ◌≤◌, ◌<◌, ◌≡◌, refl, subst, Bool, false, Bool-cases, Option-cases, Option, none,
  some, List, [], ◌∷◌, ◌++◌, length, length-append, length-take, get_elem?, All, All-append, take,
  drop, filter, map, is_empty, inl, inr, arith,
}
use potatodb.Tui.Line.{
  byte_len, len_utf8, slice_from, slice_to, insert_str, replace_range, IsAscii, byte_len_ascii,
  split_at_ascii, first_part, second_part, put_between, IsAscii-append, IsAscii-take, IsAscii-drop,
}
use potatodb.Tui.App.{App, Completion}
use potatodb.Tui.Panic.{◌>>=◌, set}
use potatodb.Tui.Vectors.{All-get_elem?, get_elem?_lt, get_elem?-set, All-set}
use potatodb.Tui.Completion.{
  column_names, word_start, word_before_cursor, contains, push_unseen, insert_sorted, sort, before,
  matches, display, starts_with, build_candidates, cycle, complete, start_completion, tab_complete,
}
use potatodb.Tui.Keywords.{sql_keywords}
use potatodb.Tui.Typing.{IsTyping, Ok}

abbrev pub Shown : Option Completion → ℕ → Type 0
Shown none col = Unit {0}
Shown (some comp) col = (comp.start_col ≤ col) × All IsAscii comp.candidates

-- The invariant: apart from a completion that is shown, that of the query window.
pub record IsSafe (a : App) : Type 0 where
  pub typing : IsTyping (record a { completion = none })
  pub shown : Shown a.completion a.cursor_col

module _ {A : Type 0} where
  All-filter : (P : A → Type 0) (p : A → Bool) (xs : List A) → All P xs → All P (filter p xs)
  All-filter P p [] h = tt
  All-filter P p (x ∷ xs) h = elim (Bool-cases (p x)) [
    | inl e ↦ rw (e, filter) (h.0, All-filter P p xs h.1)
    | inr e ↦ rw (e, filter) (All-filter P p xs h.1)
  ]

All-map :
    (f : List ℕ → List ℕ) (xs : List (List ℕ))
    → ((x : List ℕ) → IsAscii x → IsAscii (f x))
    → All IsAscii xs
    → All IsAscii (map f xs)
All-map f [] h k = tt
All-map f (x ∷ xs) h k = (h x k.0, All-map f xs h k.1)

push_unseen_ascii :
    (out xs : List (List ℕ)) → All IsAscii out → All IsAscii xs → All IsAscii (push_unseen out xs)
unfolding push_unseen
push_unseen_ascii out [] h k = h
push_unseen_ascii out (x ∷ xs) h k = elim (Bool-cases (contains out x)) [
  | inl e ↦ rw e (push_unseen_ascii out xs h k.1)
  | inr e ↦
      rw e (push_unseen_ascii (out ++ x ∷ []) xs (All-append IsAscii out (x ∷ []) h (k.0, tt)) k.1)
]

insert_sorted_ascii :
    (tables : List (List ℕ)) (x : List ℕ) (ys : List (List ℕ))
    → IsAscii x
    → All IsAscii ys
    → All IsAscii (insert_sorted tables x ys)
unfolding insert_sorted
insert_sorted_ascii tables x [] h k = (h, tt)
insert_sorted_ascii tables x (y ∷ ys) h k = elim (Bool-cases (before tables y x)) [
  | inl e ↦ rw e (k.0, insert_sorted_ascii tables x ys h k.1)
  | inr e ↦ rw e (h, k)
]

sort_ascii : (tables xs : List (List ℕ)) → All IsAscii xs → All IsAscii (sort tables xs)
unfolding sort
sort_ascii tables [] h = tt
sort_ascii tables (x ∷ xs) h =
    insert_sorted_ascii tables x (sort tables xs) h.0 (sort_ascii tables xs h.1)

sql_keywords_ascii : All IsAscii sql_keywords
sql_keywords_ascii = omega arith

word_start_le :
    (s : List ℕ) (at found : ℕ) → IsAscii s → found ≤ at → word_start s at found ≤ at + length s
unfolding word_start len_utf8
word_start_le [] at found h k = omega arith
word_start_le (c ∷ s) at found h k =
    ground (arith, h.0, word_start_le s (at + 1) found h.1, word_start_le s (at + 1) (at + 1) h.1)

replace_range_ascii :
    (s : List ℕ) (start end : ℕ) (text : List ℕ)
    → IsAscii s
    → start ≤ end
    → end ≤ length s
    → replace_range s start end text ≡ some (take start s ++ (text ++ drop end s))
unfolding replace_range slice_to slice_from
replace_range_ascii s start end text h k l =
    rw (split_at_ascii s start h (omega arith), replace_range)
      (rw (split_at_ascii s end h l) (ground (arith, k)))

mod_lt : (cs : List (List ℕ)) (i : ℕ) → is_empty cs ≡ false → (i + 1) % length cs < length cs
mod_lt [] i e = cc
mod_lt (c ∷ cs) i e = grind arith

-- A text that is put before the rest of the current line.
put_over :
    (a : App) (line front text back : List ℕ) (start : ℕ) (comp : Option Completion)
    → get_elem? a.input_lines a.cursor_row ≡ some line
    → start ≤ length front
    → IsAscii front
    → IsAscii text
    → IsAscii back
    → Shown comp (start + byte_len text)
    → IsTyping (record a { completion = none })
    → IsSafe (record a {
      input_lines = set a.input_lines a.cursor_row (take start front ++ (text ++ back));
      cursor_col = start + byte_len text;
      completion = comp;
    })
put_over a line front text back start comp at bound front_ascii text_ascii back_ascii shown t =
    let line' = take start front ++ (text ++ back) in
    record {
      typing = record {
        cursor = (
          line',
          get_elem?-set a.input_lines a.cursor_row line' at,
          omega (
            arith,
            length-append (take start front) (text ++ back),
            length-append text back,
            length-take start front,
            byte_len_ascii text text_ascii,
          ),
        );
        lines = All-set IsAscii a.input_lines a.cursor_row line' t.lines (
            IsAscii-append (take start front) (text ++ back) (IsAscii-take start front front_ascii)
              (IsAscii-append text back text_ascii back_ascii));
        entries = t.entries;
        recalled = t.recalled;
        names = t.names;
        idle = refl;
      };
      shown = shown;
    }

module _ (to_uppercase to_lowercase : List ℕ → List ℕ) (is_lowercase : ℕ → Bool)
    (lowercase_ascii : (s : List ℕ) → IsAscii s → IsAscii (to_lowercase s)) where
  display_ascii :
      (prefix kw : List ℕ)
      → IsAscii kw
      → IsAscii (display to_uppercase to_lowercase is_lowercase prefix kw)
  display_ascii prefix kw h = ground (arith, h, lowercase_ascii kw h)

  build_candidates_ascii :
      (a : App) (prefix : List ℕ)
      → All IsAscii a.tables × All IsAscii (column_names a.schema_cache)
      → All IsAscii (build_candidates to_uppercase to_lowercase is_lowercase a prefix)
  unfolding build_candidates
  build_candidates_ascii a prefix (h, k) =
      let hit = matches to_uppercase to_lowercase is_lowercase prefix in
      let written = display to_uppercase to_lowercase is_lowercase prefix in
      let tables = filter hit a.tables in
      let columns = filter hit (column_names a.schema_cache) in
      let kws = filter (λ kw. starts_with kw (to_uppercase prefix)) sql_keywords in
      let one = push_unseen_ascii [] tables tt (All-filter IsAscii hit a.tables h) in
      let two =
        push_unseen_ascii (push_unseen [] tables) columns one
          (All-filter IsAscii hit (column_names a.schema_cache) k) in
      let shown = All-map written kws (display_ascii prefix) (
        All-filter IsAscii (λ kw. starts_with kw (to_uppercase prefix)) sql_keywords
          sql_keywords_ascii) in
      sort_ascii a.tables
        (push_unseen (push_unseen (push_unseen [] tables) columns) (map written kws))
        (push_unseen_ascii (push_unseen (push_unseen [] tables) columns) (map written kws) two
          shown)

  complete-Ok :
      (a : App) (start : ℕ) (candidates : List (List ℕ))
      → start ≤ a.cursor_col
      → All IsAscii candidates
      → IsSafe a
      → Ok IsSafe (complete to_uppercase to_lowercase is_lowercase a start candidates)
  unfolding complete
  complete-Ok a start [] h k s = s
  complete-Ok a start (first ∷ others) h k s =
      let (line, at, inside) = s.typing.cursor in
      let ascii = All-get_elem? IsAscii a.input_lines a.cursor_row s.typing.lines at in
      rw (at, ◌>>=◌)
        (rw (replace_range_ascii line start a.cursor_col first ascii h inside, ◌>>=◌)
          (put_over a line line first (drop a.cursor_col line) start _ at (omega arith) ascii k.0
            (IsAscii-drop a.cursor_col line ascii) (omega arith, k) s.typing))

  start_completion-Ok :
      (a : App) → IsSafe a → Ok IsSafe (start_completion to_uppercase to_lowercase is_lowercase a)
  unfolding start_completion word_before_cursor slice_to slice_from
  start_completion-Ok a s =
      let (line, at, inside) = s.typing.cursor in
      let ascii = All-get_elem? IsAscii a.input_lines a.cursor_row s.typing.lines at in
      let front = take a.cursor_col line in
      let start = word_start front 0 0 in
      let front_ascii = IsAscii-take a.cursor_col line ascii in
      let bound : start ≤ length front =
        omega (arith, word_start_le front 0 0 front_ascii (omega arith)) in
      let short : length front ≤ a.cursor_col = omega (arith, length-take a.cursor_col line) in
      let prefix = drop start front in
      rw (at, ◌>>=◌)
        (rw (split_at_ascii line a.cursor_col ascii inside, first_part, ◌>>=◌)
          (rw (split_at_ascii front start front_ascii bound, second_part, ◌>>=◌)
            (elim (Bool-cases (is_empty prefix)) [
              | inl e ↦ rw e s
              | inr e ↦ rw e (
                  complete-Ok a start
                    (build_candidates to_uppercase to_lowercase is_lowercase a prefix) (omega arith)
                    (build_candidates_ascii a prefix s.typing.names) s)
            ])))

  cycle-Ok :
      (a : App) (comp : Completion)
      → a.completion ≡ some comp
      → IsSafe a
      → Ok IsSafe (cycle to_uppercase to_lowercase is_lowercase comp a)
  unfolding cycle insert_str
  cycle-Ok a comp e s = elim (Bool-cases (is_empty comp.candidates)) [
    | inl none_left ↦ rw none_left (record { typing = s.typing; shown = tt })
    | inr some_left ↦
        let (line, at, inside) = s.typing.cursor in
        let ascii = All-get_elem? IsAscii a.input_lines a.cursor_row s.typing.lines at in
        let (before_col, offered) = subst (λ c. Shown c a.cursor_col) e s.shown in
        let index = (comp.index + 1) % length comp.candidates in
        let (next, chosen) =
          get_elem?_lt comp.candidates index (mod_lt comp.candidates comp.index some_left) in
        let next_ascii = All-get_elem? IsAscii comp.candidates index offered chosen in
        let line' = take comp.start_col line ++ ([] ++ drop a.cursor_col line) in
        let line'_ascii =
          IsAscii-append (take comp.start_col line) ([] ++ drop a.cursor_col line)
            (IsAscii-take comp.start_col line ascii) (IsAscii-drop a.cursor_col line ascii) in
        let bound : comp.start_col ≤ length line' = omega (
          arith,
          length-append (take comp.start_col line) ([] ++ drop a.cursor_col line),
          length-take comp.start_col line,
        ) in
        rw some_left (
          rw (at, ◌>>=◌)
            (rw
              (
                replace_range_ascii line comp.start_col a.cursor_col [] ascii before_col inside,
                ◌>>=◌,
              )
              (rw (chosen, ◌>>=◌)
                (rw (split_at_ascii line' comp.start_col line'_ascii bound, put_between, ◌>>=◌)
                  (put_over a line line' next (drop comp.start_col line') comp.start_col _ at bound
                    line'_ascii next_ascii (IsAscii-drop comp.start_col line' line'_ascii)
                    (omega arith, offered) s.typing)))))
  ]

  pub tab_complete-Ok :
      (a : App) → IsSafe a → Ok IsSafe (tab_complete to_uppercase to_lowercase is_lowercase a)
  unfolding tab_complete
  tab_complete-Ok a s = elim (Option-cases a.completion) [
    | inl e ↦ rw (e, tab_complete) (start_completion-Ok a s)
    | inr (comp, e) ↦ rw (e, tab_complete) (cycle-Ok a comp e s)
  ]
