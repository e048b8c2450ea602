-- ===== src/Prelude/HashMap.antt =====
-- Rust's `HashMap<String, V>` as an association list; an insertion takes an older entry of its key
-- away. Nothing here depends on the order in which the entries stand.
use Prim.Native.String.{String}
use mathlib.Core.Path.{◌≡◌, refl, subst}
use mathlib.Core.Bool.{Bool, false}
use mathlib.Core.Logic.{inl, inr}
use mathlib.Core.Option.{Option, none, some}
use mathlib.Core.List.{List, [], ◌∷◌}
use native.Mathlib.Omega.{arith}
use text.Mathlib.Text.{◌==◌}
use text.Mathlib.TextEquality.{eq_iff}
use potatodb.Prelude.Tests.{if◌then◌else◌, Bool-cases}

abbrev pub HashMap {ℓ} : Type ℓ → Type ℓ
HashMap V = List (String × V)

module _ {V : Type 0} where
  unfoldable pub get : HashMap V → String → Option V
  get [] k = none
  get ((j, v) ∷ m) k = let rest = get m k in if j == k then some v else rest

  unfoldable pub remove : HashMap V → String → HashMap V
  remove [] k = []
  remove ((j, v) ∷ m) k = let rest = remove m k in if j == k then rest else (j, v) ∷ rest

  unfoldable pub insert : HashMap V → String → V → HashMap V
  unfolding remove
  insert m k v = (k, v) ∷ remove m k

  -- `m.retain(|_, v| p(v))`
  unfoldable pub retain : (V → Bool) → HashMap V → HashMap V
  retain p [] = []
  retain p ((j, v) ∷ m) = let rest = retain p m in if p v then (j, v) ∷ rest else rest

  -- No entry of `m` has the key `k`; no two entries share a key.
  abbrev pub Fresh : String → HashMap V → Type 0
  Fresh k [] = Unit
  Fresh k ((j, v) ∷ m) = ((j == k) ≡ false) × Fresh k m

  abbrev pub Unique : HashMap V → Type 0
  Unique [] = Unit
  Unique ((j, v) ∷ m) = Fresh j m × Unique m

  pub get-remove :
      (m : HashMap V) (k j : String) → get (remove m k) j ≡ (if k == j then none else get m j)
  unfolding get remove
  get-remove [] k j = ground arith
  get-remove ((i, v) ∷ m) k j = ground (arith, get-remove m k j, eq_iff i k, eq_iff i j, eq_iff k j)

  pub get-insert :
      (m : HashMap V) (k j : String) (v : V)
      → get (insert m k v) j ≡ (if k == j then some v else get m j)
  unfolding get insert
  get-insert m k j v = ground (arith, get-remove m k j)

  Fresh-remove : (m : HashMap V) (i k : String) → Fresh i m → Fresh i (remove m k)
  unfolding remove
  Fresh-remove [] i k h = tt
  Fresh-remove ((j, v) ∷ m) i k h = elim (Bool-cases (j == k)) [
    | inl e ↦ rw e (Fresh-remove m i k h.1)
    | inr e ↦ rw e (h.0, Fresh-remove m i k h.1)
  ]

  Fresh-remove_self : (m : HashMap V) (k : String) → Fresh k (remove m k)
  unfolding remove
  Fresh-remove_self [] k = tt
  Fresh-remove_self ((j, v) ∷ m) k = elim (Bool-cases (j == k)) [
    | inl e ↦ rw e (Fresh-remove_self m k)
    | inr e ↦ rw e (e, Fresh-remove_self m k)
  ]

  pub Unique-remove : (m : HashMap V) (k : String) → Unique m → Unique (remove m k)
  unfolding remove
  Unique-remove [] k h = tt
  Unique-remove ((j, v) ∷ m) k h = elim (Bool-cases (j == k)) [
    | inl e ↦ rw e (Unique-remove m k h.1)
    | inr e ↦ rw e (Fresh-remove m j k h.0, Unique-remove m k h.1)
  ]

  pub Unique-insert : (m : HashMap V) (k : String) (v : V) → Unique m → Unique (insert m k v)
  unfolding insert
  Unique-insert m k v h = (Fresh-remove_self m k, Unique-remove m k h)

  Fresh-retain : (p : V → Bool) (m : HashMap V) (i : String) → Fresh i m → Fresh i (retain p m)
  unfolding retain
  Fresh-retain p [] i h = tt
  Fresh-retain p ((j, v) ∷ m) i h = elim (Bool-cases (p v)) [
    | inl e ↦ rw e (h.0, Fresh-retain p m i h.1)
    | inr e ↦ rw e (Fresh-retain p m i h.1)
  ]

  pub Unique-retain : (p : V → Bool) (m : HashMap V) → Unique m → Unique (retain p m)
  unfolding retain
  Unique-retain p [] h = tt
  Unique-retain p ((j, v) ∷ m) h = elim (Bool-cases (p v)) [
    | inl e ↦ rw e (Fresh-retain p m j h.0, Unique-retain p m h.1)
    | inr e ↦ rw e (Unique-retain p m h.1)
  ]

  pub get-Fresh : (m : HashMap V) (k : String) → Fresh k m → get m k ≡ none
  unfolding get
  get-Fresh [] k h = refl
  get-Fresh ((j, v) ∷ m) k h = ground (arith, get-Fresh m k)

  abbrev pub kept : (V → Bool) → Option V → Option V
  kept p none = none
  kept p (some v) = if p v then some v else none

  -- A kept entry is found as before, and one that is not kept is gone.
  pub get-retain :
      (p : V → Bool) (m : HashMap V) (k : String) → Unique m → get (retain p m) k ≡ kept p (get m k)
  unfolding get retain
  get-retain p [] k h = refl
  get-retain p ((j, v) ∷ m) k h = elim (Bool-cases (j == k)) [
    | inl e ↦
        let fresh : Fresh k m = subst (λ i. Fresh i m) ((eq_iff j k).0 e) h.0 in
        ground (arith, get-Fresh m k fresh, get-retain p m k h.1)
    | inr e ↦ ground (arith, get-retain p m k h.1)
  ]

pub ruleset map_laws = (get-insert, get-remove)
