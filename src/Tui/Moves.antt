-- ===== src/Tui/Moves.antt =====
-- Left, Right, Backspace and Delete of the query window.
use potatodb.Prelude.{◌+◌, ◌-◌, ◌≤◌, ◌≡◌, subst, Bool-cases, length, ltb, ltb→lt, inl, inr, arith}
use potatodb.Tui.Line.{byte_len, IsAscii, byte_len_ascii}
use potatodb.Tui.App.{App}
use potatodb.Tui.Panic.{◌>>=◌}
use potatodb.Tui.Vectors.{All-get_elem?, get_elem?_lt, lt_of_get_elem?, get_elem?-set, All-set}
use potatodb.Tui.Query.{on_left, on_right, on_backspace, on_delete}
use potatodb.Tui.Typing.{IsTyping, Ok, remove_ascii, backspace_in_line, to_end_of-Ok, join_rows-Ok}

pub on_left-Ok : (a : App) → IsTyping a → Ok IsTyping (on_left a)
unfolding on_left
on_left-Ok a t =
    let (line, at, inside) = t.cursor in
    elim (Bool-cases (ltb 0 a.cursor_col)) [
      | inl e ↦ rw e (record {
        cursor = (line, at, omega arith);
        lines = t.lines;
        entries = t.entries;
        names = t.names;
        recalled = t.recalled;
        idle = t.idle;
      })
      | inr e ↦ elim (Bool-cases (ltb 0 a.cursor_row)) [
        | inl above ↦
            rw (e, above)
              (to_end_of-Ok a (a.cursor_row - 1)
                (omega (arith, lt_of_get_elem? a.input_lines a.cursor_row at)) t)
        | inr first ↦ rw (e, first) t
      ]
    ]

pub on_right-Ok : (a : App) → IsTyping a → Ok IsTyping (on_right a)
unfolding on_right
on_right-Ok a t =
    let (line, at, inside) = t.cursor in
    let ascii = All-get_elem? IsAscii a.input_lines a.cursor_row t.lines at in
    rw (at, ◌>>=◌)
      (elim (Bool-cases (ltb a.cursor_col (byte_len line))) [
        | inl e ↦ rw e (record {
          cursor = (line, at, omega (arith, ltb→lt _ _ e, byte_len_ascii line ascii));
          lines = t.lines;
          entries = t.entries;
          names = t.names;
          recalled = t.recalled;
          idle = t.idle;
        })
        | inr e ↦ elim (Bool-cases (ltb (a.cursor_row + 1) (length a.input_lines))) [
          | inl below ↦
              let (next, there) =
                get_elem?_lt a.input_lines (a.cursor_row + 1) (ltb→lt _ _ below) in
              rw (e, below)
                (record {
                  cursor = (next, there, omega arith);
                  lines = t.lines;
                  entries = t.entries;
                  names = t.names;
                  recalled = t.recalled;
                  idle = t.idle;
                })
          | inr last ↦ rw (e, last) t
        ]
      ])

pub on_backspace-Ok : (a : App) → IsTyping a → Ok IsTyping (on_backspace a)
unfolding on_backspace
on_backspace-Ok a t =
    let (line, at, inside) = t.cursor in
    elim (Bool-cases (ltb 0 a.cursor_col)) [
      | inl e ↦ rw e (backspace_in_line a (ltb→lt _ _ e) t)
      | inr e ↦ elim (Bool-cases (ltb 0 a.cursor_row)) [
        | inl above ↦
            rw (e, above)
              (join_rows-Ok a (a.cursor_row - 1) byte_len
                (omega (arith, ltb→lt _ _ above, lt_of_get_elem? a.input_lines a.cursor_row at))
                (λ l here ascii. omega (arith, byte_len_ascii l ascii)) t)
        | inr first ↦ rw (e, first) t
      ]
    ]

pub on_delete-Ok : (a : App) → IsTyping a → Ok IsTyping (on_delete a)
unfolding on_delete
on_delete-Ok a t =
    let (line, at, inside) = t.cursor in
    let ascii = All-get_elem? IsAscii a.input_lines a.cursor_row t.lines at in
    rw (at, ◌>>=◌)
      (elim (Bool-cases (ltb a.cursor_col (byte_len line))) [
        | inl e ↦
            let (line', done, ascii', bound) =
              remove_ascii line a.cursor_col ascii
                (omega (arith, ltb→lt _ _ e, byte_len_ascii line ascii)) in
            rw e (
              rw (done, ◌>>=◌)
                (record {
                  cursor = (line', get_elem?-set a.input_lines a.cursor_row line' at, bound);
                  lines = All-set IsAscii a.input_lines a.cursor_row line' t.lines ascii';
                  entries = t.entries;
                  names = t.names;
                  recalled = t.recalled;
                  idle = t.idle;
                }))
        | inr e ↦ elim (Bool-cases (ltb (a.cursor_row + 1) (length a.input_lines))) [
          | inl below ↦
              rw (e, below)
                (join_rows-Ok a a.cursor_row (λ l. a.cursor_col) (ltb→lt _ _ below)
                  (λ l here h.
                    let same : line ≡ l = cc (at, here) in
                    subst (λ x. a.cursor_col ≤ length x) same inside)
                  t)
          | inr last ↦ rw (e, last) t
        ]
      ])
