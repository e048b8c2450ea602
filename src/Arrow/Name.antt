-- ===== src/Arrow/Name.antt =====
-- Names of the files of the Arrow log, as bytes: how `append` writes them, and how
-- `max_existing_seq` and `recover` read them.
use potatodb.Prelude.{
  ℕ, zero, suc, ◌+◌, ◌-◌, ◌/◌, ◌%◌, ◌^◌, Bool, true, false, ◌&&◌, ◌||◌, Option, none, some, List,
  [], ◌∷◌, ◌++◌, is_empty, if◌then◌else◌, ltb, leb, ◌==◌,
}
use potatodb.Sql.Text.{codes}
use potatodb.Sql.Parameters.{is_ascii_digit, number_of}

-- `{:0w}` of a number with at most as many digits as `fuel`.
unfoldable pub zero_padded : ℕ → ℕ → ℕ → List ℕ
zero_padded zero w n = []
zero_padded (suc fuel) w n =
    let front = zero_padded fuel (w - 1) (n / 10) in
    if ltb n 10 && leb w 1 then (b'0' + n) ∷ [] else front ++ (b'0' + n % 10) ∷ []

-- `format!("{:06}.arrow", seq)`; a `u64` has at most 20 digits.
unfoldable pub file_name : ℕ → List ℕ
file_name seq = zero_padded 20 6 seq ++ codes ".arrow"

-- The parts before and behind the last dot.
unfoldable pub split_at_dot : List ℕ → Option (List ℕ × List ℕ)
split_at_dot [] = none
split_at_dot (c ∷ name) = elim (split_at_dot name) [
  | some (stem, ext) ↦ some (c ∷ stem, ext)
  | none ↦ if c == b'.' then some ([], name) else none
]

-- A dot in front does not start an extension.
unfoldable pub file_stem : List ℕ → List ℕ
unfolding split_at_dot
file_stem name = elim (split_at_dot name) [
  | none ↦ name
  | some (stem, ext) ↦ if is_empty stem then name else stem
]

unfoldable pub bytes_eq : List ℕ → List ℕ → Bool
bytes_eq [] [] = true
bytes_eq (a ∷ s) (b ∷ t) = a == b && bytes_eq s t
bytes_eq _ _ = false

-- `extension().is_some_and(|ext| ext == "arrow")`
unfoldable pub is_arrow : List ℕ → Bool
unfolding split_at_dot bytes_eq
is_arrow name = elim (split_at_dot name) [
  | none ↦ false
  | some (stem, ext) ↦ if is_empty stem then false else bytes_eq ext (codes "arrow")
]

unfoldable pub all_digits : List ℕ → Bool
unfolding is_ascii_digit
all_digits [] = true
all_digits (b ∷ bs) = is_ascii_digit b && all_digits bs

-- `parse::<u64>()`, which takes one plus sign in front.
unfoldable pub parse_unsigned : List ℕ → Option ℕ
unfolding all_digits number_of
parse_unsigned ds =
    if is_empty ds
    then none
    else if all_digits ds && ltb (number_of 0 ds) (2 ^ 64)
    then some (number_of 0 ds)
    else none

unfoldable pub parse_u64 : List ℕ → Option ℕ
unfolding parse_unsigned
parse_u64 [] = none
parse_u64 (c ∷ ds) = if c == b'+' then parse_unsigned ds else parse_unsigned (c ∷ ds)

-- The order of `sort_by_key(DirEntry::file_name)`.
unfoldable pub le_bytes : List ℕ → List ℕ → Bool
le_bytes [] t = true
le_bytes (a ∷ s) [] = false
le_bytes (a ∷ s) (b ∷ t) = ltb a b || (a == b && le_bytes s t)
