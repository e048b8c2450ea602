-- ===== src/Sql/Grammar.antt =====
-- What the comments above `split_sql_statements` promise, as relations between a text and what is
-- kept of it, and that its loop does so.
use mathlib.Core.Path.{ap₂}
use potatodb.Prelude.{
  ℕ, zero, suc, ◌≡◌, ◌≢◌, refl, sym, ap, ◌∙◌, ◌⊎◌, inl, inr, Option, some, List, [], ◌∷◌, ◌++◌,
  append-nil, append_assoc, All, head?, filter, map, not, is_empty, arith, Bool-cases, false, ◌==◌,
  ==_iff,
}
use potatodb.Sql.Text.{trim, peeks}
use potatodb.Sql.Lexer.{
  Mode, push, code, quoted, line, block, round, code_round, quoted_round, line_round, block_round,
  close_block, loop, loop-push, loop-skip, loop-end,
}

-- The inside of a block comment, which a star follows: other comments, and characters that open
-- and close none.
pub data Comment : List ℕ → Type 0 where
  empty : Comment []
  char : {c : ℕ} {s : List ℕ} → c ≢ b'*' → c ≢ b'/' → Comment s → Comment (c ∷ s)
  star : {s : List ℕ} → head? s ≢ some b'/' → Comment s → Comment (b'*' ∷ s)
  lone_slash : {d : ℕ} {s : List ℕ} → d ≢ b'*' → Comment (d ∷ s) → Comment (b'/' ∷ d ∷ s)
  nested :
      {t : List ℕ} (inner s : List ℕ)
      → Comment inner
      → Comment s
      → t ≡ b'/' ∷ b'*' ∷ (inner ++ b'*' ∷ b'/' ∷ s)
      → Comment t

-- A text without a semicolon of its own, and what is kept of it: a space for each comment.
pub data Keeps : List ℕ → List ℕ → Type 0 where
  done : Keeps [] []
  plain :
      {c : ℕ} {s o : List ℕ}
      → c ≢ b'\''
      → c ≢ b'-'
      → c ≢ b'/'
      → c ≢ b';'
      → Keeps s o
      → Keeps (c ∷ s) (c ∷ o)
  dash : {s o : List ℕ} → head? s ≢ some b'-' → Keeps s o → Keeps (b'-' ∷ s) (b'-' ∷ o)
  slash : {s o : List ℕ} → head? s ≢ some b'*' → Keeps s o → Keeps (b'/' ∷ s) (b'/' ∷ o)
  literal :
      {t u : List ℕ} (text s o : List ℕ)
      → All (λ c. c ≢ b'\'') text
      → Keeps s o
      → t ≡ b'\'' ∷ (text ++ b'\'' ∷ s)
      → u ≡ b'\'' ∷ (text ++ b'\'' ∷ o)
      → Keeps t u
  line_comment :
      {t : List ℕ} (text s o : List ℕ)
      → All (λ c. c ≢ b'\n') text
      → Keeps s o
      → t ≡ b'-' ∷ b'-' ∷ (text ++ b'\n' ∷ s)
      → Keeps t (b' ' ∷ o)
  block_comment :
      {t : List ℕ} (text s o : List ℕ)
      → Comment text
      → Keeps s o
      → t ≡ b'/' ∷ b'*' ∷ (text ++ b'*' ∷ b'/' ∷ s)
      → Keeps t (b' ' ∷ o)

-- A text of parts that end with a semicolon and a last one, and what is kept of each.
pub data Script : List ℕ → List (List ℕ) → List ℕ → Type 0 where
  last : {s o : List ℕ} → Keeps s o → Script s [] o
  statement :
      {t : List ℕ} {later : List (List ℕ)} {end : List ℕ} (s o rest : List ℕ)
      → Keeps s o
      → Script rest later end
      → t ≡ s ++ b';' ∷ rest
      → Script t (o ∷ later) end

-- The parts that are not blank, trimmed, and the semicolon behind those that have one.
abbrev pub not_blank : List (List ℕ) → List (List ℕ)
not_blank parts = filter (λ s. not (is_empty s)) (map trim parts)

abbrev pub statements : List (List ℕ) → List ℕ → List (List ℕ)
statements parts end = map (λ s. s ++ b';' ∷ []) (not_blank parts) ++ not_blank (end ∷ [])

-- What may follow a text: nothing, or a semicolon.
abbrev Ends : List ℕ → Type 0
Ends rest = (rest ≡ []) ⊎ (head? rest ≡ some b';')

code-quote : (p : Option ℕ) → round code b'\'' p ≡ push (b'\'' ∷ []) false quoted
unfolding round code_round
code-quote p = refl

no_dash :
    (s rest : List ℕ)
    → head? s ≢ some b'-'
    → Ends rest
    → round code b'-' (head? (s ++ rest)) ≡ push (b'-' ∷ []) false code
unfolding round code_round peeks
no_dash [] [] h1 h = refl
no_dash [] (d ∷ rest) h1 h = ground (arith, h)
no_dash (d ∷ s) rest h1 h = ground (arith, h1)

no_star :
    (s rest : List ℕ)
    → head? s ≢ some b'*'
    → Ends rest
    → round code b'/' (head? (s ++ rest)) ≡ push (b'/' ∷ []) false code
unfolding round code_round peeks
no_star [] [] h1 h = refl
no_star [] (d ∷ rest) h1 h = ground (arith, h)
no_star (d ∷ s) rest h1 h = ground (arith, h1)

lone_star :
    (s rest : List ℕ) (n : ℕ)
    → head? s ≢ some b'/'
    → round (block n) b'*' (head? (s ++ b'*' ∷ rest)) ≡ push [] false (block n)
unfolding round block_round peeks
lone_star [] rest n h = refl
lone_star (d ∷ s) rest n h = ground (arith, h)

module _ {R : Type 0} (semicolon : List ℕ → (List ℕ → R) → R) (finish : List ℕ → R) where
  abbrev run : Mode → List ℕ → List ℕ → R
  run = loop semicolon finish

  -- Inside a literal and inside a line comment.
  loop-literal :
      (text rest current : List ℕ)
      → All (λ c. c ≢ b'\'') text
      → run quoted (text ++ rest) current ≡ run quoted rest (current ++ text)
  loop-literal [] rest current h = ap (run quoted rest) (sym (append-nil current))
  loop-literal (c ∷ text) rest current h =
      loop-push semicolon finish quoted quoted c (text ++ rest) (c ∷ []) current
        (unfold round quoted_round in ground (arith, h.0))
      ∙ loop-literal text rest (current ++ c ∷ []) h.1
      ∙ ap (run quoted rest) (append_assoc current (c ∷ []) text)

  -- A quote that closes a literal is pushed; if another follows, it opens the next literal.
  loop-quote :
      (rest current : List ℕ)
      → run quoted (b'\'' ∷ rest) current ≡ run code rest (current ++ b'\'' ∷ [])
  loop-quote [] current =
      loop-push semicolon finish quoted code b'\'' [] (b'\'' ∷ []) current
        (unfold round quoted_round peeks in refl)
  loop-quote (d ∷ rest) current = elim (Bool-cases (d == b'\'')) [
    | inl e ↦
        loop-skip semicolon finish quoted quoted b'\'' d rest (b'\'' ∷ b'\'' ∷ []) current
          (unfold round quoted_round peeks in ground (arith, e))
        ∙ ap (run quoted rest) (sym (append_assoc current (b'\'' ∷ []) (b'\'' ∷ [])))
        ∙ sym (
            loop-push semicolon finish code quoted b'\'' rest (b'\'' ∷ []) (current ++ b'\'' ∷ [])
              (code-quote _))
        ∙ ap (λ c. run code (c ∷ rest) (current ++ b'\'' ∷ [])) (sym ((==_iff d b'\'').0 e))
    | inr e ↦
        loop-push semicolon finish quoted code b'\'' (d ∷ rest) (b'\'' ∷ []) current
          (unfold round quoted_round peeks in ground (arith, e))
  ]

  loop-line :
      (text rest current : List ℕ)
      → All (λ c. c ≢ b'\n') text
      → run line (text ++ b'\n' ∷ rest) current ≡ run code rest (current ++ b' ' ∷ [])
  loop-line [] rest current h =
      loop-push semicolon finish line code b'\n' rest (b' ' ∷ []) current
        (unfold round line_round in refl)
  loop-line (c ∷ text) rest current h =
      loop-push semicolon finish line line c (text ++ b'\n' ∷ rest) [] current
        (unfold round line_round in ground (arith, h.0))
      ∙ ap (run line (text ++ b'\n' ∷ rest)) (append-nil current)
      ∙ loop-line text rest current h.1

  loop-Comment :
      {text : List ℕ} (b : Comment text) (n : ℕ) (rest current : List ℕ)
      → run (block n) (text ++ b'*' ∷ rest) current ≡ run (block n) (b'*' ∷ rest) current
  loop-Comment empty n rest current = refl
  loop-Comment (char {c} {s} h1 h2 b) n rest current =
      loop-push semicolon finish (block n) (block n) c (s ++ b'*' ∷ rest) [] current
        (unfold round block_round in ground (arith, h1, h2))
      ∙ ap (run (block n) (s ++ b'*' ∷ rest)) (append-nil current)
      ∙ loop-Comment b n rest current
  loop-Comment (star {s} h b) n rest current =
      loop-push semicolon finish (block n) (block n) b'*' (s ++ b'*' ∷ rest) [] current
        (lone_star s rest n h)
      ∙ ap (run (block n) (s ++ b'*' ∷ rest)) (append-nil current)
      ∙ loop-Comment b n rest current
  loop-Comment (lone_slash {d} {s} h b) n rest current =
      loop-push semicolon finish (block n) (block n) b'/' (d ∷ (s ++ b'*' ∷ rest)) [] current
        (unfold round block_round peeks in ground (arith, h))
      ∙ ap (run (block n) (d ∷ (s ++ b'*' ∷ rest))) (append-nil current)
      ∙ loop-Comment b n rest current
  loop-Comment (nested {t} inner s bi b e) n rest current =
      ap (λ u. run (block n) (u ++ b'*' ∷ rest) current) e
      ∙ loop-skip semicolon finish (block n) (block (suc n)) b'/' b'*' _ [] current
          (unfold round block_round peeks in refl)
      ∙ ap₂ (λ u c. run (block (suc n)) u c) (append_assoc inner (b'*' ∷ b'/' ∷ s) (b'*' ∷ rest))
          (append-nil current)
      ∙ loop-Comment bi (suc n) (b'/' ∷ (s ++ b'*' ∷ rest)) current
      ∙ loop-skip semicolon finish (block (suc n)) (block n) b'*' b'/' (s ++ b'*' ∷ rest) [] current
          (unfold round block_round peeks close_block in refl)
      ∙ ap (run (block n) (s ++ b'*' ∷ rest)) (append-nil current)
      ∙ loop-Comment b n rest current

  -- One character that is pushed as it is.
  loop-char :
      (c : ℕ) (s rest current o : List ℕ)
      → round code c (head? (s ++ rest)) ≡ push (c ∷ []) false code
      → ((cur : List ℕ) → run code (s ++ rest) cur ≡ run code rest (cur ++ o))
      → run code (c ∷ (s ++ rest)) current ≡ run code rest (current ++ c ∷ o)
  loop-char c s rest current o h ih =
      loop-push semicolon finish code code c (s ++ rest) (c ∷ []) current h
      ∙ ih (current ++ c ∷ [])
      ∙ ap (run code rest) (append_assoc current (c ∷ []) o)

  pub loop-Keeps :
      {t o : List ℕ} (k : Keeps t o) (rest current : List ℕ)
      → Ends rest
      → run code (t ++ rest) current ≡ run code rest (current ++ o)
  loop-Keeps done rest current h = ap (run code rest) (sym (append-nil current))
  loop-Keeps (plain {c} {s} {o} h1 h2 h3 h4 k) rest current h =
      loop-char c s rest current o (unfold round code_round in ground (arith, h1, h2, h3, h4))
        (λ cur. loop-Keeps k rest cur h)
  loop-Keeps (dash {s} {o} h1 k) rest current h =
      loop-char b'-' s rest current o (no_dash s rest h1 h) (λ cur. loop-Keeps k rest cur h)
  loop-Keeps (slash {s} {o} h1 k) rest current h =
      loop-char b'/' s rest current o (no_star s rest h1 h) (λ cur. loop-Keeps k rest cur h)
  loop-Keeps (literal {t} {u} text s o ht k e1 e2) rest current h =
      ap (λ v. run code (v ++ rest) current) e1
      ∙ loop-push semicolon finish code quoted b'\'' _ (b'\'' ∷ []) current (code-quote _)
      ∙ ap (λ v. run quoted v (current ++ b'\'' ∷ [])) (append_assoc text (b'\'' ∷ s) rest)
      ∙ loop-literal text (b'\'' ∷ (s ++ rest)) (current ++ b'\'' ∷ []) ht
      ∙ loop-quote (s ++ rest) _
      ∙ loop-Keeps k rest _ h
      ∙ ap (run code rest) (simp (append_assoc, e2))
  loop-Keeps (line_comment {t} text s o ht k e) rest current h =
      ap (λ v. run code (v ++ rest) current) e
      ∙ loop-skip semicolon finish code line b'-' b'-' _ [] current
          (unfold round code_round peeks in refl)
      ∙ ap₂ (λ v c. run line v c) (append_assoc text (b'\n' ∷ s) rest) (append-nil current)
      ∙ loop-line text (s ++ rest) current ht
      ∙ loop-Keeps k rest _ h
      ∙ ap (run code rest) (append_assoc current (b' ' ∷ []) o)
  loop-Keeps (block_comment {t} text s o ht k e) rest current h =
      ap (λ v. run code (v ++ rest) current) e
      ∙ loop-skip semicolon finish code (block zero) b'/' b'*' _ [] current
          (unfold round code_round peeks in refl)
      ∙ ap₂ (λ v c. run (block zero) v c) (append_assoc text (b'*' ∷ b'/' ∷ s) rest)
          (append-nil current)
      ∙ loop-Comment ht zero (b'/' ∷ (s ++ rest)) current
      ∙ loop-skip semicolon finish (block zero) code b'*' b'/' (s ++ rest) (b' ' ∷ []) current
          (unfold round block_round peeks close_block in refl)
      ∙ loop-Keeps k rest _ h
      ∙ ap (run code rest) (append_assoc current (b' ' ∷ []) o)

  -- A text whose parts are all kept is read to its end.
  pub loop-Keeps_all :
      {t o : List ℕ} (k : Keeps t o) (current : List ℕ) → run code t current ≡ finish (current ++ o)
  loop-Keeps_all {t} {o} k current =
      ap (λ v. run code v current) (sym (append-nil t))
      ∙ loop-Keeps k [] current (inl refl)
      ∙ loop-end semicolon finish (current ++ o)
