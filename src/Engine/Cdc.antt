-- ===== src/Engine/Cdc.antt =====
-- The log of changes: `record_cdc_event`, and the part of `PotatoDB::new` that reads it back.
use potatodb.Prelude.{
  ℕ, ◌^◌, ◌<◌, ◌≡◌, String, Bool, true, false, ◌&&◌, Option, none, some, List, [], ◌∷◌, ◌++◌, All,
  length, take, is_empty, if◌then◌else◌, unwrap_or, ltb, ◌==◌,
}
use potatodb.Prelude.Int.{ℤ, pos, IsI64}
use potatodb.Prelude.Utf8.{from_utf8_lossy, IsUtf8}
use potatodb.Arrow.Name.{bytes_eq}

-- Texts are their UTF-8 bytes.
pub record CdcEvent : Type 0 where
  pub table : List ℕ
  pub op : List ℕ
  pub timestamp_ms : ℤ
  pub rows : ℕ

abbrev pub IsEvent : CdcEvent → Type 0
IsEvent e = IsI64 e.timestamp_ms × (e.rows < 2 ^ 64)

-- A byte of a line without an end.
abbrev pub IsPrinted : ℕ → Type 0
IsPrinted b = ((b == 10) ≡ false) × ((b == 13) ≡ false)

-- `serde_json`: it escapes line breaks in strings, and what it prints it reads back. `object` is the
-- object that `json!` builds with the four fields; `as_str v key` is `v[key].as_str()`.
pub record SerdeJson : Type 1 where
  pub Value : Type 0
  pub object : List ℕ → List ℕ → ℤ → ℕ → Value
  pub to_string : Value → List ℕ
  pub from_str : List ℕ → Option Value
  pub as_str : Value → String → Option (List ℕ)
  pub as_i64 : Value → String → Option ℤ
  pub as_u64 : Value → String → Option ℕ
  pub from-to : (v : Value) → from_str (to_string v) ≡ some v
  pub printed : (v : Value) → All IsPrinted (to_string v)
  pub text : (v : Value) → IsUtf8 (to_string v)
  pub as_str-table : (t o : List ℕ) (m : ℤ) (n : ℕ) → as_str (object t o m n) "table" ≡ some t
  pub as_str-op : (t o : List ℕ) (m : ℤ) (n : ℕ) → as_str (object t o m n) "op" ≡ some o
  pub as_i64-object :
      (t o : List ℕ) (m : ℤ) (n : ℕ) → IsI64 m → as_i64 (object t o m n) "timestamp_ms" ≡ some m
  pub as_u64-object :
      (t o : List ℕ) (m : ℤ) (n : ℕ) → n < 2 ^ 64 → as_u64 (object t o m n) "rows" ≡ some n

-- `cdc_log_path` is there exactly if the data is local; `file` is what that file holds.
pub record Cdc : Type 0 where
  pub cdc_log : List CdcEvent
  pub cdc_capacity : ℕ
  pub is_local : Bool
  pub file : Option (List ℕ)

-- The loop of `pop_front`.
unfoldable pub pop_excess : ℕ → List CdcEvent → List CdcEvent
pop_excess capacity [] = []
pop_excess capacity (e ∷ es) = elim (ltb capacity (length (e ∷ es))) [
  | true ↦ pop_excess capacity es
  | false ↦ e ∷ es
]

-- `str::lines`, on bytes.
unfoldable pub strip_return : List ℕ → List ℕ
strip_return [] = []
strip_return (b ∷ []) = if b == 13 then [] else b ∷ []
strip_return (b ∷ c ∷ bs) = b ∷ strip_return (c ∷ bs)

unfoldable pub lines : List ℕ → List ℕ → List (List ℕ)
lines line [] = if is_empty line then [] else line ∷ []
lines line (b ∷ bs) = elim (b == 10) [
  | true ↦ strip_return line ∷ lines [] bs
  | false ↦ lines (line ++ b ∷ []) bs
]

-- `read_to_string`, which fails on a file that is not there or not UTF-8.
unfoldable pub read_to_string : Option (List ℕ) → Option (List ℕ)
read_to_string none = none
read_to_string (some bytes) = if bytes_eq (from_utf8_lossy bytes) bytes then some bytes else none

module _ (j : SerdeJson) where
  unfoldable pub event_line : CdcEvent → List ℕ
  event_line e = j.to_string (j.object e.table e.op e.timestamp_ms e.rows) ++ 10 ∷ []

  -- Errors of the file are ignored: whether it opens, and after how many bytes a write fails.
  unfoldable pub record_cdc_event : Bool → Option ℕ → CdcEvent → Cdc → Cdc
  unfolding pop_excess
  record_cdc_event opened written e c =
      let bytes : List ℕ = elim written [ none ↦ event_line e | some n ↦ take n (event_line e) ] in
      record c {
        cdc_log = pop_excess c.cdc_capacity (c.cdc_log ++ e ∷ []);
        file = if c.is_local && opened then some (unwrap_or c.file [] ++ bytes) else c.file;
      }

  unfoldable pub event_of : j.Value → CdcEvent
  event_of v = record {
    table = unwrap_or (j.as_str v "table") [];
    op = unwrap_or (j.as_str v "op") [];
    timestamp_ms = unwrap_or (j.as_i64 v "timestamp_ms") (pos 0);
    rows = unwrap_or (j.as_u64 v "rows") 0;
  }

  unfoldable pub events_of : List (List ℕ) → List CdcEvent
  events_of [] = []
  events_of (line ∷ rest) =
      let events = events_of rest in
      elim (j.from_str line) [ none ↦ events | some v ↦ event_of v ∷ events ]

  -- `PotatoDB::new` over the file that is there.
  unfoldable pub load_cdc_log : ℕ → Bool → Option (List ℕ) → Cdc
  unfolding pop_excess lines read_to_string
  load_cdc_log capacity is_local file = record {
    cdc_log =
        if is_local
        then elim (read_to_string file) [
          | none ↦ []
          | some contents ↦ pop_excess capacity (events_of (lines [] contents))
        ]
        else [];
    cdc_capacity = capacity;
    is_local = is_local;
    file = file;
  }
