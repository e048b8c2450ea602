-- ===== src/Tests/Changes.antt =====
-- The log of changes at a small history.
use potatodb.Prelude.{
  ℕ, zero, suc, ◌+◌, ◌≤◌, ◌≡◌, refl, ap, ◌∙◌, String, true, false, none, some, List, [], ◌∷◌, ◌++◌,
  All, length, get_or, take, drop, take-append, drop-append, replicate, if◌then◌else◌, str_eq, ◌==◌,
  inl, arith,
}
use potatodb.Prelude.Int.{ℤ, pos, negsuc}
use potatodb.Prelude.Utf8.{IsUtf8, IsScalar, encode_text, encode_char}
use potatodb.Engine.Cdc.{CdcEvent, IsEvent, IsPrinted, SerdeJson, record_cdc_event, load_cdc_log}
use potatodb.Engine.Recorded.{Op, recorded, restarted, run, run-last}

-- A value is some numbers; a number is printed as that many letters `a` and a `b`.
abbrev print : List ℕ → List ℕ
print [] = []
print (n ∷ v) = replicate n 97 ++ 98 ∷ print v

abbrev parse : ℕ → List ℕ → List ℕ
parse n [] = []
parse n (b ∷ bytes) = elim (b == 97) [ true ↦ parse (suc n) bytes | false ↦ n ∷ parse 0 bytes ]

parse-print :
    (k n : ℕ) (v : List ℕ) → parse k (replicate n 97 ++ 98 ∷ print v) ≡ (k + n) ∷ parse 0 (print v)
parse-print k zero v = ap (λ m. m ∷ parse 0 (print v)) (omega arith)
parse-print k (suc n) v = parse-print (suc k) n v ∙ ap (λ m. m ∷ parse 0 (print v)) (omega arith)

from-to : (v : List ℕ) → parse 0 (print v) ≡ v
from-to [] = refl
from-to (n ∷ v) =
    parse-print 0 n v
    ∙ ap (λ m. m ∷ parse 0 (print v)) {x = 0 + n} {y = n} (omega arith)
    ∙ ap (λ t. n ∷ t) (from-to v)

letters :
    (P : ℕ → Type 0)
    → P 97
    → P 98
    → (n : ℕ) (bytes : List ℕ) → All P bytes
    → All P (replicate n 97 ++ 98 ∷ bytes)
letters P a b zero bytes h = (b, h)
letters P a b (suc n) bytes h = (a, letters P a b n bytes h)

All-print : (P : ℕ → Type 0) → P 97 → P 98 → (v : List ℕ) → All P (print v)
All-print P a b [] = tt
All-print P a b (n ∷ v) = letters P a b n (print v) (All-print P a b v)

abbrev Letter : ℕ → Type 0
Letter b = IsScalar b × (encode_char b ≡ b ∷ [])

letters_text : (bytes : List ℕ) → All Letter bytes → IsUtf8 bytes
unfolding encode_text
letters_text [] h = ([], tt, refl)
letters_text (b ∷ bs) h =
    let (cs, scalars, e) = letters_text bs h.1 in
    (b ∷ cs, (h.0.0, scalars), ap (λ t. t ++ encode_text cs) h.0.1 ∙ ap (λ t. b ∷ t) e)

-- The sign of a time stamp and its size, the number of rows, and the two texts.
abbrev numbers_of : List ℕ → List ℕ → ℤ → ℕ → List ℕ
numbers_of t o (pos m) n = 0 ∷ m ∷ n ∷ length t ∷ t ++ o
numbers_of t o (negsuc m) n = 1 ∷ m ∷ n ∷ length t ∷ t ++ o

abbrev text_at : List ℕ → String → List ℕ
text_at (sign ∷ m ∷ n ∷ len ∷ v) key = if str_eq key "table" then take len v else drop len v
text_at _ key = []

abbrev time_at : List ℕ → ℤ
time_at (sign ∷ m ∷ v) = if sign == 0 then pos m else negsuc m
time_at _ = pos 0

table_text : (t o : List ℕ) (m : ℤ) (n : ℕ) → text_at (numbers_of t o m n) "table" ≡ t
table_text t o (pos m) n = take-append (length t) t o refl
table_text t o (negsuc m) n = take-append (length t) t o refl

op_text : (t o : List ℕ) (m : ℤ) (n : ℕ) → text_at (numbers_of t o m n) "op" ≡ o
op_text t o (pos m) n = drop-append (length t) t o refl
op_text t o (negsuc m) n = drop-append (length t) t o refl

time_of_numbers : (t o : List ℕ) (m : ℤ) (n : ℕ) → time_at (numbers_of t o m n) ≡ m
time_of_numbers t o (pos m) n = refl
time_of_numbers t o (negsuc m) n = refl

rows_of_numbers : (t o : List ℕ) (m : ℤ) (n : ℕ) → get_or (numbers_of t o m n) 2 0 ≡ n
rows_of_numbers t o (pos m) n = refl
rows_of_numbers t o (negsuc m) n = refl

abbrev unary : SerdeJson
unary = record {
  Value = List ℕ;
  object = numbers_of;
  to_string = print;
  from_str = λ bytes. some (parse 0 bytes);
  as_str = λ v key. some (text_at v key);
  as_i64 = λ v key. some (time_at v);
  as_u64 = λ v key. some (get_or v 2 0);
  from-to = λ v. ap some (from-to v);
  printed = All-print IsPrinted (refl, refl) (refl, refl);
  text = λ v. letters_text (print v) (
      All-print Letter (inl (omega arith), unfold encode_char in refl)
        (inl (omega arith), unfold encode_char in refl) v);
  as_str-table = λ t o m n. ap some (table_text t o m n);
  as_str-op = λ t o m n. ap some (op_text t o m n);
  as_i64-object = λ t o m n h. ap some (time_of_numbers t o m n);
  as_u64-object = λ t o m n h. ap some (rows_of_numbers t o m n);
}

abbrev event : ℕ → CdcEvent
event n = record { table = 116 ∷ []; op = 105 ∷ []; timestamp_ms = pos n; rows = 1 }

event_valid : (n : ℕ) → n ≤ 9 → IsEvent (event n)
event_valid n h = ((omega arith, omega (arith, h)), omega arith)

-- The file does not open for the second change, which the next start forgets.
abbrev some_ops : List Op
some_ops =
    recorded true (event 1)
    ∷ recorded false (event 2)
    ∷ recorded true (event 3)
    ∷ restarted 2
    ∷ recorded true (event 4)
    ∷ []

run-last_example :
    (run unary some_ops (load_cdc_log unary 3 true none)).cdc_log ≡ event 3 ∷ event 4 ∷ []
unfolding load_cdc_log record_cdc_event
run-last_example = run-last unary some_ops 3 true (
  event_valid 1 (omega arith),
  (
    event_valid 2 (omega arith),
    (event_valid 3 (omega arith), (tt, (event_valid 4 (omega arith), tt))),
  ),
)
