-- ===== src/Sql/Csv.antt =====
-- `split_top_level_csv` of crates/engine/src/lib.rs.
use potatodb.Prelude.{
  ℕ, ◌+◌, ◌-◌, ◌≡◌, ◌≢◌, refl, Bool, true, false, ◌&&◌, Option, none, some, List, [], ◌∷◌, ◌++◌,
  All, head?, filter, map, not, is_empty, if◌then◌else◌, ◌==◌,
}
use potatodb.Sql.Text.{trim, peeks}
use potatodb.Engine.Parens.{Balanced}

-- A round of the loop, or of the loop over a literal: what is pushed, whether the peeked character
-- was taken too, whether the code stands in a literal, and the depth; or the end of an item.
pub data Round : Type 0 where
  push : List ℕ → Bool → Bool → ℕ → Round
  comma : Round

-- A depth is at most the length of the text, so that `saturating_add` does not saturate.
unfoldable pub csv_round : Bool → ℕ → ℕ → Option ℕ → Round
unfolding peeks
csv_round false depth ch p =
    if ch == b'\''
    then push (ch ∷ []) false true depth
    else if ch == b'('
    then push (ch ∷ []) false false (depth + 1)
    else if ch == b')'
    then push (ch ∷ []) false false (depth - 1)
    else if (ch == b',') && (depth == 0)
    then comma
    else push (ch ∷ []) false false depth
csv_round true depth ch p =
    if ch == b'\''
    then if peeks p b'\''
      then push (b'\'' ∷ b'\'' ∷ []) true true depth
      else push (b'\'' ∷ []) false false depth
    else push (ch ∷ []) false true depth

-- An item that is not blank is kept.
abbrev pub with_item : List ℕ → List (List ℕ) → List (List ℕ)
with_item cur later = let item = trim cur in if is_empty item then later else item ∷ later

unfoldable pub csv_advance :
    Round
    → List ℕ
    → (Bool → ℕ → List ℕ → List (List ℕ))
    → (Bool → ℕ → List ℕ → List (List ℕ))
    → List (List ℕ)
csv_advance (push t false q d) cur next past = next q d (cur ++ t)
csv_advance (push t true q d) cur next past = past q d (cur ++ t)
csv_advance comma cur next past = with_item cur (next false 0 [])

unfoldable pub csv_loop : List ℕ → Bool → ℕ → List ℕ → List (List ℕ)
unfolding csv_round csv_advance
csv_loop [] q depth cur = with_item cur []
csv_loop (ch ∷ []) q depth cur =
    csv_advance (csv_round q depth ch none) cur (csv_loop []) (csv_loop [])
csv_loop (ch ∷ d ∷ rest) q depth cur =
    csv_advance (csv_round q depth ch (some d)) cur (csv_loop (d ∷ rest)) (csv_loop rest)

unfoldable pub split_top_level_csv : List ℕ → List (List ℕ)
unfolding csv_loop trim
split_top_level_csv input = csv_loop input false 0 []

-- An item: commas stand only inside literals and matching parentheses.
pub data Item : List ℕ → Type 0 where
  empty : Item []
  char : {c : ℕ} {s : List ℕ} → c ≢ b'\'' → c ≢ b'(' → c ≢ b')' → c ≢ b',' → Item s → Item (c ∷ s)
  quoted :
      {t : List ℕ} (q s : List ℕ)
      → All (λ c. c ≢ b'\'') q
      → Item s
      → t ≡ b'\'' ∷ (q ++ b'\'' ∷ s)
      → Item t
  group :
      {t : List ℕ} (inner s : List ℕ)
      → Balanced inner
      → Item s
      → t ≡ b'(' ∷ (inner ++ b')' ∷ s)
      → Item t

-- The items with commas between them, and those of them that are not blank, trimmed.
abbrev pub join : List ℕ → List (List ℕ) → List ℕ
join item [] = item
join item (next ∷ items) = item ++ b',' ∷ join next items

abbrev pub kept : List (List ℕ) → List (List ℕ)
kept items = filter (λ s. not (is_empty s)) (map trim items)

pub csv-push :
    (ch : ℕ) (rest : List ℕ) (q : Bool) (d : ℕ) (cur t : List ℕ) (q' : Bool) (d' : ℕ)
    → csv_round q d ch (head? rest) ≡ push t false q' d'
    → csv_loop (ch ∷ rest) q d cur ≡ csv_loop rest q' d' (cur ++ t)
unfolding csv_loop csv_advance
csv-push ch [] q d cur t q' d' h = rw h
csv-push ch (x ∷ rest) q d cur t q' d' h = rw h

pub csv-skip :
    (ch x : ℕ) (rest : List ℕ) (q : Bool) (d : ℕ) (cur t : List ℕ) (q' : Bool) (d' : ℕ)
    → csv_round q d ch (some x) ≡ push t true q' d'
    → csv_loop (ch ∷ x ∷ rest) q d cur ≡ csv_loop rest q' d' (cur ++ t)
unfolding csv_loop csv_advance
csv-skip ch x rest q d cur t q' d' h = rw h

pub csv-comma :
    (rest cur : List ℕ)
    → csv_loop (b',' ∷ rest) false 0 cur ≡ with_item cur (csv_loop rest false 0 [])
unfolding csv_loop csv_advance csv_round
csv-comma [] cur = refl
csv-comma (x ∷ rest) cur = refl
