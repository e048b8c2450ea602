-- ===== src/Tui/Export.antt =====
-- Writing results to a file: `export_csv`, `export_json`, `export_sql` and `handle_export_key` of
-- crates/tui/src/lib.rs.
use potatodb.Prelude.{
  ℕ, ◌+◌, ◌%◌, Bool, ◌||◌, ◌&&◌, Option, none, some, List, [], ◌∷◌, ◌++◌, map, length, get_elem?,
  any, leb, ◌==◌, if◌then◌else◌,
}
use potatodb.Sql.Text.{codes}
use potatodb.Tui.App.{
  App, QueryResults, Message, exported, export_failed, closed, KeyCode, enter, tab, esc, backspace,
  char,
}
use potatodb.Tui.History.{text_eq}

-- `s.replace(c, text)` for a character
unfoldable pub replace_char : ℕ → List ℕ → List ℕ → List ℕ
replace_char c text [] = []
replace_char c text (d ∷ s) =
    let rest = replace_char c text s in if d == c then text ++ rest else d ∷ rest

-- `v.join(separator)`
unfoldable pub join_with : List ℕ → List (List ℕ) → List ℕ
join_with separator [] = []
join_with separator (s ∷ []) = s
join_with separator (s ∷ t ∷ v) = s ++ separator ++ join_with separator (t ∷ v)

unfoldable pub csv_cell : List ℕ → List ℕ
unfolding replace_char
csv_cell c =
    if any (λ d. d == b',' || d == b'"' || d == b'\n') c
    then b'"' ∷ (replace_char b'"' (b'"' ∷ b'"' ∷ []) c ++ b'"' ∷ [])
    else c

unfoldable pub csv_rows : List (List (List ℕ)) → List ℕ
unfolding csv_cell join_with
csv_rows [] = []
csv_rows (row ∷ rows) = join_with (b',' ∷ []) (map csv_cell row) ++ b'\n' ∷ csv_rows rows

unfoldable pub export_csv : QueryResults → List ℕ
unfolding csv_rows join_with
export_csv r = join_with (b',' ∷ []) r.headers ++ b'\n' ∷ csv_rows r.rows

-- `headers.zip(row)` with each pair printed
unfoldable pub json_pairs : List (List ℕ) → List (List ℕ) → List (List ℕ)
unfolding replace_char
json_pairs (h ∷ hs) (v ∷ vs) =
    (codes "    \"" ++ h ++ codes "\": \"" ++ replace_char b'"' (b'\\' ∷ b'"' ∷ []) v ++ b'"' ∷ [])
    ∷ json_pairs hs vs
json_pairs _ _ = []

unfoldable pub json_object : List (List ℕ) → List (List ℕ) → List ℕ
unfolding json_pairs join_with
json_object headers row =
    codes "  {\n" ++ join_with (codes ",\n") (json_pairs headers row) ++ codes "\n  }"

unfoldable pub export_json : QueryResults → List ℕ
unfolding json_object join_with
export_json r =
    codes "[\n" ++ join_with (codes ",\n") (map (json_object r.headers) r.rows) ++ codes "\n]"

-- `v.eq_ignore_ascii_case("null")`
unfoldable pub is_null_text : List ℕ → Bool
unfolding text_eq
is_null_text v =
    text_eq (map (λ c. if leb b'A' c && leb c b'Z' then c + 32 else c) v) (codes "null")

unfoldable pub sql_value : List ℕ → List ℕ
unfolding is_null_text replace_char
sql_value v =
    if is_null_text v
    then codes "NULL"
    else b'\'' ∷ (replace_char b'\'' (b'\'' ∷ b'\'' ∷ []) v ++ b'\'' ∷ [])

unfoldable pub insert_statements : List ℕ → List ℕ → List (List (List ℕ)) → List ℕ
unfolding sql_value join_with
insert_statements table cols [] = []
insert_statements table cols (row ∷ rows) =
    codes "INSERT INTO \""
    ++ table
    ++ codes "\" ("
    ++ cols
    ++ codes ") VALUES ("
    ++ join_with (codes ", ") (map sql_value row)
    ++ codes ");\n"
    ++ insert_statements table cols rows

unfoldable pub export_sql : QueryResults → List ℕ → List ℕ
unfolding insert_statements join_with
export_sql r table = insert_statements table (join_with (codes ", ") r.headers) r.rows

-- What stands up to the last dot, with the dot; nothing without one.
unfoldable pub up_to_dot : List ℕ → Option (List ℕ)
up_to_dot [] = none
up_to_dot (c ∷ s) = elim (up_to_dot s) [
  | some t ↦ some (c ∷ t)
  | none ↦ if c == b'.' then some (c ∷ []) else none
]

abbrev pub with_extension : List ℕ → List ℕ → Option (List ℕ) → List ℕ
with_extension path ext none = path
with_extension path ext (some stem) = stem ++ ext

abbrev pub format_extension : ℕ → List ℕ
format_extension n = if n == 0 then codes "csv" else if n == 1 then codes "json" else codes "sql"

abbrev pub table_or_default : Option (List ℕ) → List ℕ
table_or_default none = codes "table"
table_or_default (some name) = name

unfoldable pub export_content : App → List ℕ
unfolding export_csv export_json export_sql
export_content a =
    if a.export_format == 0
    then export_csv a.results
    else if a.export_format == 1
    then export_json a.results
    else export_sql a.results (table_or_default (get_elem? a.tables a.selected_table))

abbrev pub drop_last : List ℕ → List ℕ
drop_last [] = []
drop_last (c ∷ []) = []
drop_last (c ∷ d ∷ s) = c ∷ drop_last (d ∷ s)

-- A toast for three seconds of the clock, in nanoseconds.
abbrev pub set_toast : ℕ → Message → App → App
set_toast now m a = record a { toast = some (record { message = m; expires = now + 3000000000 }) }

abbrev pub outcome : App → Option (List ℕ) → Message
outcome a none = exported (length a.results.rows) a.export_path
outcome a (some error) = export_failed error

-- `write path content` is the error of `std::fs::write`, if there is one.
unfoldable pub handle_export_key : (List ℕ → List ℕ → Option (List ℕ)) → ℕ → App → KeyCode → App
unfolding up_to_dot export_content
handle_export_key write now a esc = record a { popup = closed }
handle_export_key write now a tab =
    let format = (a.export_format + 1) % 3 in
    record a {
      export_format = format;
      export_path =
          with_extension a.export_path (format_extension format) (up_to_dot a.export_path);
    }
handle_export_key write now a enter =
    record (set_toast now (outcome a (write a.export_path (export_content a))) a) { popup = closed }
handle_export_key write now a backspace = record a { export_path = drop_last a.export_path }
handle_export_key write now a (char c) = record a { export_path = a.export_path ++ c ∷ [] }
handle_export_key write now a _ = a
