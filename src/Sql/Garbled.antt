-- ===== src/Sql/Garbled.antt =====
-- Which templates `substitute_parameters` of crates/engine/src/lib.rs leaves as they are.
use mathlib.Core.Path.{ap₂}
use potatodb.Prelude.{
  ℕ, zero, ◌≤◌, ◌<◌, ◌≡◌, ◌≢◌, ◌↔◌, refl, sym, ap, ◌∙◌, Bool-cases, List, [], ◌∷◌, ◌++◌, All,
  length, length-append, ltb→lt, ltb, inl, inr, arith,
}
use potatodb.Prelude.Utf8.{encode_char}
use potatodb.Sql.Parameters.{substitute_loop, substitute_parameters, loop-byte}

encode_char_ascii : (b : ℕ) → b < 128 → encode_char b ≡ b ∷ []
unfolding encode_char
encode_char_ascii b h = ground arith

length-encode_char : (b : ℕ) → b < 256 → 128 ≤ b → length (encode_char b) ≡ 2
unfolding encode_char
length-encode_char b h k = ground arith

loop_ascii :
    (params : List (List ℕ)) (t : List ℕ)
    → All (λ b. b ≢ b'$') t
    → All (λ b. b < 128) t
    → substitute_loop params zero t ≡ t
loop_ascii params [] h k = unfold substitute_loop in refl
loop_ascii params (b ∷ t) h k =
    loop-byte params b t h.0
    ∙ ap₂ (λ u v. u ++ v) (encode_char_ascii b k.0) (loop_ascii params t h.1 k.1)

length-loop :
    (params : List (List ℕ)) (t : List ℕ)
    → All (λ b. b ≢ b'$') t
    → All (λ b. b < 256) t
    → length t ≤ length (substitute_loop params zero t)
length-loop params [] h k = omega arith
length-loop params (b ∷ t) h k =
    let eq = loop-byte params b t h.0 in
    let sum = length-append (encode_char b) (substitute_loop params zero t) in
    elim (Bool-cases (ltb b 128)) [
      | inl small ↦ omega (
        arith,
        ap length eq,
        sum,
        ap length (encode_char_ascii b (ltb→lt b 128 small)),
        length-loop params t h.1 k.1,
      )
      | inr large ↦ omega (
        arith,
        ap length eq,
        sum,
        length-encode_char b k.0 (ground (arith, large)),
        length-loop params t h.1 k.1,
      )
    ]

loop_kept :
    (params : List (List ℕ)) (t : List ℕ)
    → All (λ b. b ≢ b'$') t
    → All (λ b. b < 256) t
    → substitute_loop params zero t ≡ t
    → All (λ b. b < 128) t
loop_kept params [] h k e = tt
loop_kept params (b ∷ t) h k e =
    let eq : encode_char b ++ substitute_loop params zero t ≡ b ∷ t =
      sym (loop-byte params b t h.0) ∙ e in
    elim (Bool-cases (ltb b 128)) [
      | inl small ↦
          let same : b ∷ substitute_loop params zero t ≡ b ∷ t =
            ap (λ u. u ++ substitute_loop params zero t)
              (sym (encode_char_ascii b (ltb→lt b 128 small)))
            ∙ eq in
          (ltb→lt b 128 small, loop_kept params t h.1 k.1 (cc same))
      | inr large ↦ absurd (
          omega (
            arith,
            ap length eq,
            length-append (encode_char b) (substitute_loop params zero t),
            length-encode_char b k.0 (ground (arith, large)),
            length-loop params t h.1 k.1,
          ))
    ]

-- A template of bytes without a `$` is left as it is by parameters exactly if it is ASCII.
pub substitute_parameters-eq_iff :
    (params : List (List ℕ)) (template : List ℕ)
    → params ≢ []
    → All (λ b. b ≢ b'$') template
    → All (λ b. b < 256) template
    → (substitute_parameters template params ≡ template) ↔ All (λ b. b < 128) template
unfolding substitute_parameters
substitute_parameters-eq_iff [] t ne h k = absurd (ne refl)
substitute_parameters-eq_iff (p ∷ params) t ne h k =
    (loop_kept (p ∷ params) t h k, loop_ascii (p ∷ params) t h)
