-- ===== src/Tui/Vectors.antt =====
-- Laws of the vectors of lines.
use potatodb.Prelude.{
  ℕ, zero, suc, ◌≤◌, ◌<◌, ◌≡◌, refl, ap, subst, Bool-cases, some, List, [], ◌∷◌, length, get_elem?,
  All, drop, ◌==◌, inl, inr, arith,
}
use potatodb.Tui.Panic.{set, insert_at, remove_at, split_lines, cons_head, join_lines, ◌>>=◌}
use potatodb.Tui.Line.{IsAscii, IsAscii-append}

module _ {A : Type 0} where
  pub All-get_elem? :
      (P : A → Type 0) (xs : List A) (i : ℕ) {x : A} → All P xs → get_elem? xs i ≡ some x → P x
  All-get_elem? P [] i h e = cc
  All-get_elem? P (y ∷ xs) zero h e = subst P (cc e) h.0
  All-get_elem? P (y ∷ xs) (suc i) h e = All-get_elem? P xs i h.1 e

  pub get_elem?_lt : (xs : List A) (i : ℕ) → i < length xs → (x : A) × (get_elem? xs i ≡ some x)
  get_elem?_lt [] i h = absurd (omega arith)
  get_elem?_lt (x ∷ xs) zero h = (x, refl)
  get_elem?_lt (x ∷ xs) (suc i) h = get_elem?_lt xs i (omega arith)

  pub lt_of_get_elem? : (xs : List A) (i : ℕ) {x : A} → get_elem? xs i ≡ some x → i < length xs
  lt_of_get_elem? [] i e = cc
  lt_of_get_elem? (x ∷ xs) zero e = omega arith
  lt_of_get_elem? (x ∷ xs) (suc i) e = omega (arith, lt_of_get_elem? xs i e)

  pub get_elem?-set :
      (xs : List A) (i : ℕ) {x : A} (y : A)
      → get_elem? xs i ≡ some x
      → get_elem? (set xs i y) i ≡ some y
  unfolding set
  get_elem?-set [] i y e = cc
  get_elem?-set (x ∷ xs) zero y e = refl
  get_elem?-set (x ∷ xs) (suc i) y e = get_elem?-set xs i y e

  pub length-set : (xs : List A) (i : ℕ) (y : A) → length (set xs i y) ≡ length xs
  unfolding set
  length-set [] i y = refl
  length-set (x ∷ xs) zero y = refl
  length-set (x ∷ xs) (suc i) y = ap suc (length-set xs i y)

  pub All-set : (P : A → Type 0) (xs : List A) (i : ℕ) (y : A) → All P xs → P y → All P (set xs i y)
  unfolding set
  All-set P [] i y h k = tt
  All-set P (x ∷ xs) zero y h k = (k, h.1)
  All-set P (x ∷ xs) (suc i) y h k = (h.0, All-set P xs i y h.1 k)

  pub insert_at_lem :
      (P : A → Type 0) (xs : List A) (i : ℕ) (y : A)
      → i ≤ length xs
      → All P xs
      → P y
      → (ys : List A) × (insert_at xs i y ≡ some ys) × (get_elem? ys i ≡ some y) × All P ys
  unfolding insert_at
  insert_at_lem P xs zero y h k p = (y ∷ xs, refl, refl, (p, k))
  insert_at_lem P [] (suc i) y h k p = absurd (omega arith)
  insert_at_lem P (x ∷ xs) (suc i) y h k p =
      let (ys, e, at, q) = insert_at_lem P xs i y (omega arith) k.1 p in
      (x ∷ ys, rw (e, ◌>>=◌), at, (k.0, q))

  -- What stands before the removed element stays where it is.
  pub remove_at_lem :
      (P : A → Type 0) (xs : List A) (i : ℕ)
      → suc i < length xs
      → All P xs
      → (ys : List A) × (y : A) × (remove_at xs (suc i) ≡ some (ys, y))
        × (get_elem? ys i ≡ get_elem? xs i)
        × All P ys
        × P y
  unfolding remove_at
  remove_at_lem P [] i h k = absurd (omega arith)
  remove_at_lem P (x ∷ []) i h k = absurd (omega arith)
  remove_at_lem P (x ∷ y ∷ xs) zero h k = (x ∷ xs, y, refl, refl, (k.0, k.1.1), k.1.0)
  remove_at_lem P (x ∷ y ∷ xs) (suc i) h k =
      let (ys, z, e, at, q, p) = remove_at_lem P (y ∷ xs) i (omega arith) k.1 in
      (x ∷ ys, z, rw (e, ◌>>=◌), at, (k.0, q), p)

  pub All-drop : (P : A → Type 0) (n : ℕ) (xs : List A) → All P xs → All P (drop n xs)
  All-drop P zero xs h = h
  All-drop P (suc n) [] h = tt
  All-drop P (suc n) (x ∷ xs) h = All-drop P n xs h.1

cons_head-nonempty : (c : ℕ) (lines : List (List ℕ)) → 0 < length (cons_head c lines)
cons_head-nonempty c [] = omega arith
cons_head-nonempty c (l ∷ lines) = omega arith

cons_head-ascii :
    (c : ℕ) (lines : List (List ℕ)) → c < 0x80 → All IsAscii lines → All IsAscii (cons_head c lines)
cons_head-ascii c [] h k = ((h, tt), tt)
cons_head-ascii c (l ∷ lines) h k = ((h, k.0), k.1)

pub length-split_lines : (s : List ℕ) → 0 < length (split_lines s)
unfolding split_lines
length-split_lines [] = omega arith
length-split_lines (c ∷ s) = ground (arith, cons_head-nonempty c (split_lines s))

pub split_lines_ascii : (s : List ℕ) → IsAscii s → All IsAscii (split_lines s)
unfolding split_lines
split_lines_ascii [] h = (tt, tt)
split_lines_ascii (c ∷ s) h = elim (Bool-cases (c == b'\n')) [
  | inl e ↦ rw e (tt, split_lines_ascii s h.1)
  | inr e ↦ rw e (cons_head-ascii c (split_lines s) h.0 (split_lines_ascii s h.1))
]

pub join_lines_ascii : (lines : List (List ℕ)) → All IsAscii lines → IsAscii (join_lines lines)
unfolding join_lines
join_lines_ascii [] h = tt
join_lines_ascii (l ∷ []) h = h.0
join_lines_ascii (l ∷ m ∷ lines) h =
    IsAscii-append l (b'\n' ∷ join_lines (m ∷ lines)) h.0
      (omega arith, join_lines_ascii (m ∷ lines) h.1)
