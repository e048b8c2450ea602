-- ===== src/Sql/Items.antt =====
-- What `split_top_level_csv` of crates/engine/src/lib.rs returns for items with commas between them.
use potatodb.Prelude.{
  ℕ, suc, ◌≡◌, ◌≢◌, refl, sym, ap, ◌∙◌, true, false, Bool-cases, List, [], ◌∷◌, ◌++◌, append-nil,
  append_assoc, All, is_empty, ◌==◌, ==_iff, inl, inr, arith,
}
use potatodb.Engine.Parens.{Balanced}
use potatodb.Engine.Parens
use potatodb.Sql.Text.{trim, peeks}
use potatodb.Sql.Csv.{
  csv_round, csv_loop, csv-push, csv-skip, csv-comma, split_top_level_csv, with_item, Item, empty,
  char, quoted, group, join, kept,
}

quote_opens :
    (rest : List ℕ) (d : ℕ) (cur : List ℕ)
    → csv_loop (b'\'' ∷ rest) false d cur ≡ csv_loop rest true d (cur ++ b'\'' ∷ [])
quote_opens rest d cur =
    csv-push b'\'' rest false d cur (b'\'' ∷ []) true d (unfold csv_round in refl)

-- A quote that closes a literal is pushed; if another follows, it opens the next literal.
quote_closes :
    (rest : List ℕ) (d : ℕ) (cur : List ℕ)
    → csv_loop (b'\'' ∷ rest) true d cur ≡ csv_loop rest false d (cur ++ b'\'' ∷ [])
quote_closes [] d cur =
    csv-push b'\'' [] true d cur (b'\'' ∷ []) false d (unfold csv_round peeks in refl)
quote_closes (x ∷ rest) d cur = elim (Bool-cases (x == b'\'')) [
  | inl e ↦
      csv-skip b'\'' x rest true d cur (b'\'' ∷ b'\'' ∷ []) true d
        (unfold csv_round peeks in ground (arith, e))
      ∙ ap (csv_loop rest true d) (sym (append_assoc cur (b'\'' ∷ []) (b'\'' ∷ [])))
      ∙ sym (quote_opens rest d (cur ++ b'\'' ∷ []))
      ∙ ap (λ c. csv_loop (c ∷ rest) false d (cur ++ b'\'' ∷ [])) (sym ((==_iff x b'\'').0 e))
  | inr e ↦
      csv-push b'\'' (x ∷ rest) true d cur (b'\'' ∷ []) false d
        (unfold csv_round peeks in ground (arith, e))
]

in_literal :
    (q rest : List ℕ) (d : ℕ) (cur : List ℕ)
    → All (λ c. c ≢ b'\'') q
    → csv_loop (q ++ rest) true d cur ≡ csv_loop rest true d (cur ++ q)
in_literal [] rest d cur h = ap (csv_loop rest true d) (sym (append-nil cur))
in_literal (c ∷ q) rest d cur h =
    csv-push c (q ++ rest) true d cur (c ∷ []) true d (unfold csv_round in ground (arith, h.0))
    ∙ in_literal q rest d (cur ++ c ∷ []) h.1
    ∙ ap (csv_loop rest true d) (append_assoc cur (c ∷ []) q)

-- A literal and what follows it, of which is known how it is read.
literal :
    (q s rest : List ℕ) (d : ℕ) (cur : List ℕ)
    → All (λ c. c ≢ b'\'') q
    → ((c : List ℕ) → csv_loop (s ++ rest) false d c ≡ csv_loop rest false d (c ++ s))
    → csv_loop ((b'\'' ∷ (q ++ b'\'' ∷ s)) ++ rest) false d cur
      ≡ csv_loop rest false d (cur ++ b'\'' ∷ (q ++ b'\'' ∷ s))
literal q s rest d cur h later =
    quote_opens _ d cur
    ∙ ap (λ u. csv_loop u true d (cur ++ b'\'' ∷ [])) (append_assoc q (b'\'' ∷ s) rest)
    ∙ in_literal q (b'\'' ∷ (s ++ rest)) d (cur ++ b'\'' ∷ []) h
    ∙ quote_closes (s ++ rest) d _
    ∙ later _
    ∙ ap (csv_loop rest false d) (simp append_assoc)

-- Matching parentheses around a text that is read at the greater depth, and what follows.
parens :
    (inner s rest : List ℕ) (d : ℕ) (cur : List ℕ)
    → ((r c : List ℕ)
        → csv_loop (inner ++ r) false (suc d) c ≡ csv_loop r false (suc d) (c ++ inner))
    → ((c : List ℕ) → csv_loop (s ++ rest) false d c ≡ csv_loop rest false d (c ++ s))
    → csv_loop ((b'(' ∷ (inner ++ b')' ∷ s)) ++ rest) false d cur
      ≡ csv_loop rest false d (cur ++ b'(' ∷ (inner ++ b')' ∷ s))
parens inner s rest d cur inside later =
    csv-push b'(' ((inner ++ b')' ∷ s) ++ rest) false d cur (b'(' ∷ []) false (suc d)
      (unfold csv_round in ground arith)
    ∙ ap (λ u. csv_loop u false (suc d) (cur ++ b'(' ∷ [])) (append_assoc inner (b')' ∷ s) rest)
    ∙ inside (b')' ∷ (s ++ rest)) (cur ++ b'(' ∷ [])
    ∙ csv-push b')' (s ++ rest) false (suc d) ((cur ++ b'(' ∷ []) ++ inner) (b')' ∷ []) false d
        (unfold csv_round in ground arith)
    ∙ later _
    ∙ ap (csv_loop rest false d) (simp append_assoc)

csv_loop-Balanced :
    {t : List ℕ} (b : Balanced t) (d : ℕ) (rest cur : List ℕ)
    → csv_loop (t ++ rest) false (suc d) cur ≡ csv_loop rest false (suc d) (cur ++ t)
csv_loop-Balanced Parens.empty d rest cur = ap (csv_loop rest false (suc d)) (sym (append-nil cur))
csv_loop-Balanced (Parens.char {c} {s} h1 h2 h3 b) d rest cur =
    csv-push c (s ++ rest) false (suc d) cur (c ∷ []) false (suc d)
      (unfold csv_round in ground (arith, h1, h2, h3))
    ∙ csv_loop-Balanced b d rest (cur ++ c ∷ [])
    ∙ ap (csv_loop rest false (suc d)) (append_assoc cur (c ∷ []) s)
csv_loop-Balanced (Parens.quoted {t} q s hq b e) d rest cur =
    ap (λ u. csv_loop (u ++ rest) false (suc d) cur) e
    ∙ literal q s rest (suc d) cur hq (λ c. csv_loop-Balanced b d rest c)
    ∙ ap (λ u. csv_loop rest false (suc d) (cur ++ u)) (sym e)
csv_loop-Balanced (Parens.group {t} inner s bi b e) d rest cur =
    ap (λ u. csv_loop (u ++ rest) false (suc d) cur) e
    ∙ parens inner s rest (suc d) cur (λ r c. csv_loop-Balanced bi (suc d) r c)
        (λ c. csv_loop-Balanced b d rest c)
    ∙ ap (λ u. csv_loop rest false (suc d) (cur ++ u)) (sym e)

csv_loop-Item :
    {t : List ℕ} (b : Item t) (rest cur : List ℕ)
    → csv_loop (t ++ rest) false 0 cur ≡ csv_loop rest false 0 (cur ++ t)
csv_loop-Item empty rest cur = ap (csv_loop rest false 0) (sym (append-nil cur))
csv_loop-Item (char {c} {s} h1 h2 h3 h4 b) rest cur =
    csv-push c (s ++ rest) false 0 cur (c ∷ []) false 0
      (unfold csv_round in ground (arith, h1, h2, h3, h4))
    ∙ csv_loop-Item b rest (cur ++ c ∷ [])
    ∙ ap (csv_loop rest false 0) (append_assoc cur (c ∷ []) s)
csv_loop-Item (quoted {t} q s hq b e) rest cur =
    ap (λ u. csv_loop (u ++ rest) false 0 cur) e
    ∙ literal q s rest 0 cur hq (λ c. csv_loop-Item b rest c)
    ∙ ap (λ u. csv_loop rest false 0 (cur ++ u)) (sym e)
csv_loop-Item (group {t} inner s bi b e) rest cur =
    ap (λ u. csv_loop (u ++ rest) false 0 cur) e
    ∙ parens inner s rest 0 cur (λ r c. csv_loop-Balanced bi 0 r c) (λ c. csv_loop-Item b rest c)
    ∙ ap (λ u. csv_loop rest false 0 (cur ++ u)) (sym e)

with_item_lem :
    (item : List ℕ) (items : List (List ℕ)) → with_item item (kept items) ≡ kept (item ∷ items)
with_item_lem item items = elim (Bool-cases (is_empty (trim item))) [
  | inl q ↦ ground (arith, q)
  | inr q ↦ ground (arith, q)
]

loop-join :
    (item : List ℕ) (items : List (List ℕ))
    → Item item
    → All Item items
    → csv_loop (join item items) false 0 [] ≡ kept (item ∷ items)
loop-join item [] b h =
    ap (λ u. csv_loop u false 0 []) (sym (append-nil item))
    ∙ csv_loop-Item b [] []
    ∙ (unfold csv_loop in with_item_lem item [])
loop-join item (next ∷ items) b h =
    csv_loop-Item b (b',' ∷ join next items) []
    ∙ csv-comma (join next items) item
    ∙ ap (with_item item) (loop-join next items h.0 h.1)
    ∙ with_item_lem item (next ∷ items)

-- Items with commas between them are split at exactly those commas: the commas inside literals and
-- matching parentheses split nothing. Items are trimmed, and blank ones left out.
pub split_top_level_csv-join :
    (item : List ℕ) (items : List (List ℕ))
    → Item item
    → All Item items
    → split_top_level_csv (join item items) ≡ kept (item ∷ items)
unfolding split_top_level_csv
split_top_level_csv-join item items b h = loop-join item items b h
