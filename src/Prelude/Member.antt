-- ===== src/Prelude/Member.antt =====
-- Membership with its place kept, by recursion, so that the tactics can take it apart.
use mathlib.Core.Path.{◌≡◌, refl, sym, ap, ◌∙◌}
use mathlib.Core.Logic.{◌⊎◌, inl, inr}
use mathlib.Core.Bool.{Bool, true}
use mathlib.Core.List.{List, [], ◌∷◌, ◌++◌}
use native.Mathlib.Omega.{arith}
use potatodb.Prelude.Tests.{Bool-cases}
use potatodb.Prelude.Lists.{filter, any}

module _ {A : Type 0} where
  abbrev pub Member : A → List A → Type 0
  Member a [] = ⊥
  Member a (x ∷ xs) = (a ≡ x) ⊎ Member a xs

  pub Member-filter :
      (p : A → Bool) (a : A) (xs : List A) → Member a (filter p xs) → Member a xs × (p a ≡ true)
  Member-filter p a [] h = absurd h
  Member-filter p a (x ∷ xs) h = elim (Bool-cases (p x)) [
    | inl e ↦ elim (rw (e, filter) at h) [
      | inl q ↦ (inl q, ap p q ∙ e)
      | inr q ↦ let (m, t) = Member-filter p a xs q in (inr m, t)
    ]
    | inr e ↦ let (m, t) = Member-filter p a xs (rw (e, filter) at h) in (inr m, t)
  ]

  pub Member-filter_intro :
      (p : A → Bool) (a : A) (xs : List A) → Member a xs → p a ≡ true → Member a (filter p xs)
  Member-filter_intro p a [] h t = absurd h
  Member-filter_intro p a (x ∷ xs) (inl q) t = rw (ap p (sym q) ∙ t, filter) (inl q)
  Member-filter_intro p a (x ∷ xs) (inr m) t = elim (Bool-cases (p x)) [
    | inl e ↦ rw (e, filter) (inr (Member-filter_intro p a xs m t))
    | inr e ↦ rw (e, filter) (Member-filter_intro p a xs m t)
  ]

  pub Member-append_right : (a : A) (xs ys : List A) → Member a ys → Member a (xs ++ ys)
  Member-append_right a [] ys h = h
  Member-append_right a (x ∷ xs) ys h = inr (Member-append_right a xs ys h)

  pub any-Member :
      (p : A → Bool) (xs : List A) → any p xs ≡ true → (a : A) × Member a xs × (p a ≡ true)
  any-Member p [] h = cc
  any-Member p (x ∷ xs) h = elim (Bool-cases (p x)) [
    | inl e ↦ (x, inl refl, e)
    | inr e ↦ let (a, m, t) = any-Member p xs (rw e at h) in (a, inr m, t)
  ]

  pub any-Member_intro :
      (p : A → Bool) (a : A) (xs : List A) → Member a xs → p a ≡ true → any p xs ≡ true
  any-Member_intro p a [] h t = absurd h
  any-Member_intro p a (x ∷ xs) (inl q) t = ground (arith, ap p q)
  any-Member_intro p a (x ∷ xs) (inr m) t = ground (arith, any-Member_intro p a xs m t)
