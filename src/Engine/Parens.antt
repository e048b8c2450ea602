-- ===== src/Engine/Parens.antt =====
-- `find_matching_paren` of crates/engine/src/lib.rs. A text is its UTF-8 bytes, so that positions
-- are those of the source; the bytes of a longer character are none of the three tested here.
use mathlib.Core.Path.{ap₂}
use potatodb.Prelude.{
  ℕ, suc, ◌+◌, ◌-◌, ◌≡◌, ◌≢◌, refl, ap, ◌∙◌, Bool, true, false, not, arith, Option, none, some,
  List, [], ◌∷◌, ◌++◌, append_assoc, All, length, length-append, get_elem?, drop, drop-append, ◌==◌,
  if◌then◌else◌,
}

-- One round of the loop over `char_indices`: whether it returns, the depth and the quote flag. A
-- depth is at most the length of the text, so that `saturating_add` does not saturate.
unfoldable pub scan_step : ℕ → ℕ → Bool → Bool × ℕ × Bool
scan_step ch depth in_single_quote =
    if ch == b'\''
    then (false, depth, not in_single_quote)
    else if in_single_quote
    then (false, depth, true)
    else if ch == b'('
    then (false, depth + 1, false)
    else if ch == b')'
    then (depth - 1 == 0, depth - 1, false)
    else (false, depth, false)

unfoldable pub scan : List ℕ → ℕ → ℕ → Bool → Option ℕ
scan [] idx depth q = none
scan (ch ∷ rest) idx depth q =
    let (found, depth', q') = scan_step ch depth q in
    let later = scan rest (idx + 1) depth' q' in if found then some idx else later

-- `s.get(open_idx..=open_idx)? != "("`
unfoldable pub find_matching_paren : List ℕ → ℕ → Option ℕ
find_matching_paren s open_idx = elim (get_elem? s open_idx) [
  | none ↦ none
  | some ch ↦ if ch == b'(' then scan (drop open_idx s) open_idx 0 false else none
]

-- Texts whose parentheses match, where a quoted part may hold any.
pub data Balanced : List ℕ → Type 0 where
  empty : Balanced []
  char : {c : ℕ} {s : List ℕ} → c ≢ b'\'' → c ≢ b'(' → c ≢ b')' → Balanced s → Balanced (c ∷ s)
  quoted :
      {t : List ℕ} (q s : List ℕ)
      → All (λ c. c ≢ b'\'') q
      → Balanced s
      → t ≡ b'\'' ∷ (q ++ b'\'' ∷ s)
      → Balanced t
  group :
      {t : List ℕ} (inner s : List ℕ)
      → Balanced inner
      → Balanced s
      → t ≡ b'(' ∷ (inner ++ b')' ∷ s)
      → Balanced t

scan-char :
    (c : ℕ) (rest : List ℕ) (idx d : ℕ)
    → c ≢ b'\''
    → c ≢ b'('
    → c ≢ b')'
    → scan (c ∷ rest) idx d false ≡ scan rest (idx + 1) d false
unfolding scan scan_step
scan-char c rest idx d h1 h2 h3 = ground arith

scan-quote :
    (rest : List ℕ) (idx d : ℕ) (q : Bool)
    → scan (b'\'' ∷ rest) idx d q ≡ scan rest (idx + 1) d (not q)
unfolding scan scan_step
scan-quote rest idx d q = refl

scan-open :
    (rest : List ℕ) (idx d : ℕ) → scan (b'(' ∷ rest) idx d false ≡ scan rest (idx + 1) (d + 1) false
unfolding scan scan_step
scan-open rest idx d = refl

scan-close :
    (rest : List ℕ) (idx d : ℕ)
    → scan (b')' ∷ rest) idx (suc (suc d)) false ≡ scan rest (idx + 1) (suc d) false
unfolding scan scan_step
scan-close rest idx d = ground arith

scan_close_last : (rest : List ℕ) (idx : ℕ) → scan (b')' ∷ rest) idx 1 false ≡ some idx
unfolding scan scan_step
scan_close_last rest idx = refl

scan_quoted :
    (q rest : List ℕ) (idx d : ℕ)
    → All (λ c. c ≢ b'\'') q
    → scan (q ++ rest) idx d true ≡ scan rest (idx + length q) d true
unfolding scan scan_step
scan_quoted [] rest idx d h = ap (λ i. scan rest i d true) (omega arith)
scan_quoted (c ∷ q) rest idx d h =
    let step : scan (c ∷ (q ++ rest)) idx d true ≡ scan (q ++ rest) (idx + 1) d true =
      ground (arith, h.0) in
    step ∙ scan_quoted q rest (idx + 1) d h.1 ∙ ap (λ i. scan rest i d true) (omega arith)

scan-Balanced :
    {t : List ℕ} (b : Balanced t) (rest : List ℕ) (idx d : ℕ)
    → scan (t ++ rest) idx (suc d) false ≡ scan rest (idx + length t) (suc d) false
scan-Balanced empty rest idx d = ap (λ i. scan rest i (suc d) false) (omega arith)
scan-Balanced (char {c} {s} h1 h2 h3 b) rest idx d =
    scan-char c (s ++ rest) idx (suc d) h1 h2 h3
    ∙ scan-Balanced b rest (idx + 1) d
    ∙ ap (λ i. scan rest i (suc d) false) (omega arith)
scan-Balanced (quoted {t} q s hq b e) rest idx d =
    ap (λ u. scan (u ++ rest) idx (suc d) false) e
    ∙ scan-quote _ idx (suc d) false
    ∙ ap (λ u. scan u (idx + 1) (suc d) true) (append_assoc q (b'\'' ∷ s) rest)
    ∙ scan_quoted q (b'\'' ∷ (s ++ rest)) (idx + 1) (suc d) hq
    ∙ scan-quote (s ++ rest) (idx + 1 + length q) (suc d) true
    ∙ scan-Balanced b rest (idx + 1 + length q + 1) d
    ∙ ap (λ i. scan rest i (suc d) false) (omega (arith, ap length e, length-append q (b'\'' ∷ s)))
scan-Balanced (group {t} inner s bi b e) rest idx d =
    ap (λ u. scan (u ++ rest) idx (suc d) false) e
    ∙ scan-open _ idx (suc d)
    ∙ ap₂ (λ u k. scan u (idx + 1) k false) (append_assoc inner (b')' ∷ s) rest) (omega arith)
    ∙ scan-Balanced bi (b')' ∷ (s ++ rest)) (idx + 1) (suc d)
    ∙ scan-close (s ++ rest) (idx + 1 + length inner) d
    ∙ scan-Balanced b rest (idx + 1 + length inner + 1) d
    ∙ ap (λ i. scan rest i (suc d) false)
        (omega (arith, ap length e, length-append inner (b')' ∷ s)))

get_elem?-append_front :
    (before : List ℕ) (c : ℕ) (after : List ℕ)
    → get_elem? (before ++ c ∷ after) (length before) ≡ some c
get_elem?-append_front [] c after = refl
get_elem?-append_front (x ∷ before) c after = get_elem?-append_front before c after

-- At an opening parenthesis whose contents are balanced, outside quotes, the position of the
-- closing parenthesis behind them is returned, whatever stands before and after.
find_matching_paren_lem :
    (before inner after : List ℕ)
    → Balanced inner
    → find_matching_paren (before ++ b'(' ∷ (inner ++ b')' ∷ after)) (length before)
      ≡ some (length before + 1 + length inner)
unfolding find_matching_paren
find_matching_paren_lem before inner after b =
    let text : List ℕ = b'(' ∷ (inner ++ b')' ∷ after) in
    let start : ℕ = length before in
    rw
      (
        get_elem?-append_front before b'(' (inner ++ b')' ∷ after),
        drop-append start before text refl,
        find_matching_paren,
      )
      (scan-open (inner ++ b')' ∷ after) start 0
        ∙ scan-Balanced b (b')' ∷ after) (start + 1) 0
        ∙ scan_close_last after (start + 1 + length inner))

-- Where no opening parenthesis stands, nothing is returned.
pub find_matching_paren-none :
    (s : List ℕ) (open_idx : ℕ)
    → get_elem? s open_idx ≢ some b'('
    → find_matching_paren s open_idx ≡ none
unfolding find_matching_paren
find_matching_paren-none s open_idx h = ground (arith, h)
