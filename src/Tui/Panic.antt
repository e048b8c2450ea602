-- ===== src/Tui/Panic.antt =====
-- Code of crates/tui that may panic (`none`), and the vectors that it indexes.
use potatodb.Prelude.{ℕ, zero, suc, Option, none, some, List, [], ◌∷◌, ◌++◌, ◌==◌, if◌then◌else◌}

infixl 5 ◌>>=◌
abbrev pub ◌>>=◌ : {A B : Type 0} → Option A → (A → Option B) → Option B
none >>= f = none
some a >>= f = f a

module _ {A : Type 0} where
  -- `v[i] = x`, where `i` is known to be in range
  unfoldable pub set : List A → ℕ → A → List A
  set [] i x = []
  set (y ∷ v) zero x = x ∷ v
  set (y ∷ v) (suc i) x = y ∷ set v i x

  -- `v.insert(i, x)`, which panics past the end
  unfoldable pub insert_at : List A → ℕ → A → Option (List A)
  insert_at v zero x = some (x ∷ v)
  insert_at [] (suc i) x = none
  insert_at (y ∷ v) (suc i) x = insert_at v i x >>= λ w. some (y ∷ w)

  -- `v.remove(i)`: the vector without the element, and the element
  unfoldable pub remove_at : List A → ℕ → Option (List A × A)
  remove_at [] i = none
  remove_at (y ∷ v) zero = some (v, y)
  remove_at (y ∷ v) (suc i) = remove_at v i >>= λ r. some (y ∷ r.0, r.1)

-- `lines.join("\n")` and `text.split('\n')`
unfoldable pub join_lines : List (List ℕ) → List ℕ
join_lines [] = []
join_lines (line ∷ []) = line
join_lines (line ∷ other ∷ lines) = line ++ b'\n' ∷ join_lines (other ∷ lines)

abbrev pub cons_head : ℕ → List (List ℕ) → List (List ℕ)
cons_head c [] = (c ∷ []) ∷ []
cons_head c (line ∷ lines) = (c ∷ line) ∷ lines

unfoldable pub split_lines : List ℕ → List (List ℕ)
split_lines [] = [] ∷ []
split_lines (c ∷ s) = let rest = split_lines s in if c == b'\n' then [] ∷ rest else cons_head c rest
