-- ===== src/Tui/Line.antt =====
-- `String` as crates/tui uses it: a text is its characters, and a position in it is a number of
-- UTF-8 bytes. `none` is a panic: a position past the end or inside a character.
use potatodb.Prelude.{
  ℕ, zero, suc, ◌+◌, ◌-◌, ◌≤◌, ◌<◌, ◌≡◌, refl, Option, none, some, List, [], ◌∷◌, ◌++◌, length,
  take, drop, All, ltb, leb, if◌then◌else◌, arith,
}

unfoldable pub len_utf8 : ℕ → ℕ
len_utf8 c = if ltb c 0x80 then 1 else if ltb c 0x800 then 2 else if ltb c 0x10000 then 3 else 4

-- `String::len`
unfoldable pub byte_len : List ℕ → ℕ
byte_len [] = 0
byte_len (c ∷ s) = len_utf8 c + byte_len s

abbrev pub with_front : ℕ → Option (List ℕ × List ℕ) → Option (List ℕ × List ℕ)
with_front c none = none
with_front c (some (a, b)) = some (c ∷ a, b)

-- The two parts of a text at a position, where this is a boundary of characters.
unfoldable pub split_at : List ℕ → ℕ → Option (List ℕ × List ℕ)
unfolding len_utf8
split_at s zero = some ([], s)
split_at [] (suc n) = none
split_at (c ∷ s) (suc n) =
    let rest = split_at s (suc n - len_utf8 c) in
    if leb (len_utf8 c) (suc n) then with_front c rest else none

abbrev pub first_part : Option (List ℕ × List ℕ) → Option (List ℕ)
first_part none = none
first_part (some (a, b)) = some a

abbrev pub second_part : Option (List ℕ × List ℕ) → Option (List ℕ)
second_part none = none
second_part (some (a, b)) = some b

-- `&s[at..]`, `&s[..at]`, and `s.truncate(at)`, which does nothing past the end
unfoldable pub slice_from : List ℕ → ℕ → Option (List ℕ)
unfolding split_at
slice_from s at = second_part (split_at s at)

unfoldable pub slice_to : List ℕ → ℕ → Option (List ℕ)
unfolding split_at
slice_to s at = first_part (split_at s at)

unfoldable pub truncate : List ℕ → ℕ → Option (List ℕ)
unfolding slice_to byte_len
truncate s at = if leb at (byte_len s) then slice_to s at else some s

-- `s.insert_str(at, text)`; `s.insert(at, c)` is the case of one character.
abbrev pub put_between : List ℕ → Option (List ℕ × List ℕ) → Option (List ℕ)
put_between text none = none
put_between text (some (a, b)) = some (a ++ (text ++ b))

unfoldable pub insert_str : List ℕ → ℕ → List ℕ → Option (List ℕ)
unfolding split_at
insert_str s at text = put_between text (split_at s at)

-- `s.remove(at)`, which panics at the end
abbrev pub without_next : Option (List ℕ × List ℕ) → Option (List ℕ)
without_next none = none
without_next (some (a, [])) = none
without_next (some (a, c ∷ b)) = some (a ++ b)

unfoldable pub remove : List ℕ → ℕ → Option (List ℕ)
unfolding split_at
remove s at = without_next (split_at s at)

-- `s.replace_range(start..end, text)`
abbrev pub replace_end : List ℕ → List ℕ → Option (List ℕ) → Option (List ℕ)
replace_end text front none = none
replace_end text front (some back) = some (front ++ (text ++ back))

abbrev pub replace_from : List ℕ → List ℕ → ℕ → Option (List ℕ) → Option (List ℕ)
replace_from s text end none = none
replace_from s text end (some front) = replace_end text front (slice_from s end)

unfoldable pub replace_range : List ℕ → ℕ → ℕ → List ℕ → Option (List ℕ)
unfolding slice_to slice_from
replace_range s start end text =
    if leb start end then replace_from s text end (slice_to s start) else none

abbrev pub IsAscii : List ℕ → Type 0
IsAscii s = All (λ c. c < 0x80) s

-- In ASCII a position is an index.
pub byte_len_ascii : (s : List ℕ) → IsAscii s → byte_len s ≡ length s
unfolding byte_len len_utf8
byte_len_ascii [] h = refl
byte_len_ascii (c ∷ s) h = ground (arith, h.0, byte_len_ascii s h.1)

pub split_at_ascii :
    (s : List ℕ) (n : ℕ) → IsAscii s → n ≤ length s → split_at s n ≡ some (take n s, drop n s)
unfolding split_at len_utf8
split_at_ascii s zero h k = refl
split_at_ascii [] (suc n) h k = absurd (omega arith)
split_at_ascii (c ∷ s) (suc n) h k = ground (arith, h.0, split_at_ascii s n h.1)

pub IsAscii-append : (s t : List ℕ) → IsAscii s → IsAscii t → IsAscii (s ++ t)
IsAscii-append [] t h k = k
IsAscii-append (c ∷ s) t h k = (h.0, IsAscii-append s t h.1 k)

pub IsAscii-take : (n : ℕ) (s : List ℕ) → IsAscii s → IsAscii (take n s)
IsAscii-take zero s h = tt
IsAscii-take (suc n) [] h = tt
IsAscii-take (suc n) (c ∷ s) h = (h.0, IsAscii-take n s h.1)

pub IsAscii-drop : (n : ℕ) (s : List ℕ) → IsAscii s → IsAscii (drop n s)
IsAscii-drop zero s h = h
IsAscii-drop (suc n) [] h = tt
IsAscii-drop (suc n) (c ∷ s) h = IsAscii-drop n s h.1
