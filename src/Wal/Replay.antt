-- ===== src/Wal/Replay.antt =====
-- Which statements `recover` hands back for replay.
use potatodb.Prelude.{ℕ, ◌≡◌, ◌≢◌, refl, ap, ◌⊎◌, ◌↔◌, inl, inr, arith}
use potatodb.Prelude.{List, [], ◌∷◌, true, false, ◌||◌, is_empty, Bool-cases, ◌==◌, ==_iff}
use potatodb.Prelude.Member.{Member, Member-filter, Member-filter_intro}
use potatodb.Wal.Entry.{WalEntry, EntryStatus, pending, committed, aborted, status_eq}
use potatodb.Wal.Log.{txns_with, contains, replayed, replay}

-- `entries` hold a marker with the status `s` for the transaction `id`.
abbrev pub Marked : EntryStatus → List WalEntry → ℕ → Type 0
Marked s entries id = (m : WalEntry) × Member m entries × (m.status ≡ s) × (m.txn_id ≡ id)

-- What the comments of `recover` promise of a replayed entry.
pub record IsReplayable (entries : List WalEntry) (e : WalEntry) : Type 0 where
  pub is_pending : e.status ≡ pending
  pub has_sql : e.sql ≢ []
  pub is_committed : (e.txn_id ≡ 0) ⊎ Marked committed entries e.txn_id
  pub not_aborted : ¬ (Marked aborted entries e.txn_id)

pub status_eq_iff : (s t : EntryStatus) → (status_eq s t ≡ true) ↔ (s ≡ t)
status_eq_iff s t = (λ h. ground arith, λ h. ground arith)

contains-Marked :
    (s : EntryStatus) (es : List WalEntry) (id : ℕ)
    → contains (txns_with s es) id ≡ true
    → Marked s es id
unfolding txns_with
contains-Marked s [] id h = cc
contains-Marked s (e ∷ es) id h = elim (Bool-cases (status_eq e.status s)) [
  | inl same ↦ elim (Bool-cases (e.txn_id == id)) [
    | inl hit ↦ (e, inl refl, (status_eq_iff e.status s).0 same, (==_iff e.txn_id id).0 hit)
    | inr miss ↦ let (m, at, st, tx) = contains-Marked s es id (ground arith) in (m, inr at, st, tx)
  ]
  | inr other ↦ let (m, at, st, tx) = contains-Marked s es id (ground arith) in (m, inr at, st, tx)
]

Marked-contains :
    (s : EntryStatus) (es : List WalEntry) (id : ℕ)
    → Marked s es id
    → contains (txns_with s es) id ≡ true
unfolding txns_with
Marked-contains s [] id (m, at, st, tx) = absurd at
Marked-contains s (e ∷ es) id (m, inl here, st, tx) =
    ground (arith, ap (λ (w : WalEntry). w.status) here, ap (λ (w : WalEntry). w.txn_id) here)
Marked-contains s (e ∷ es) id (m, inr there, st, tx) =
    ground (arith, Marked-contains s es id (m, there, st, tx))

is_empty_lem : (l : List ℕ) → is_empty l ≡ false → l ≢ []
is_empty_lem [] h = cc
is_empty_lem (x ∷ l) h = λ e. cc

replayed-IsReplayable :
    (es : List WalEntry) (e : WalEntry) → replayed es e ≡ true → IsReplayable es e
unfolding replayed
replayed-IsReplayable es e h = record {
  is_pending = (status_eq_iff e.status pending).0 (ground arith);
  has_sql = is_empty_lem e.sql (ground arith);
  is_committed = elim (Bool-cases (e.txn_id == 0)) [
    | inl zero_id ↦ inl (ground arith)
    | inr other ↦ inr (contains-Marked committed es e.txn_id (ground arith))
  ];
  not_aborted = λ m. ground (arith, Marked-contains aborted es e.txn_id m);
}

committed_test :
    (es : List WalEntry) (id : ℕ)
    → (id ≡ 0) ⊎ Marked committed es id
    → (id == 0 || contains (txns_with committed es) id) ≡ true
committed_test es id (inl z) = ground arith
committed_test es id (inr m) = ground (arith, Marked-contains committed es id m)

not_aborted_test :
    (es : List WalEntry) (id : ℕ)
    → ¬ (Marked aborted es id)
    → contains (txns_with aborted es) id ≡ false
not_aborted_test es id n = elim (Bool-cases (contains (txns_with aborted es) id)) [
  | inl hit ↦ absurd (n (contains-Marked aborted es id hit))
  | inr miss ↦ miss
]

not_empty : (l : List ℕ) → l ≢ [] → is_empty l ≡ false
not_empty [] h = absurd (h refl)
not_empty (x ∷ l) h = refl

IsReplayable-replayed :
    (es : List WalEntry) (e : WalEntry) → IsReplayable es e → replayed es e ≡ true
unfolding replayed
IsReplayable-replayed es e r = ground (
  arith,
  (status_eq_iff e.status pending).1 r.is_pending,
  not_empty e.sql r.has_sql,
  committed_test es e.txn_id r.is_committed,
  not_aborted_test es e.txn_id r.not_aborted,
)

-- An entry is handed back exactly when it stands in the log and is replayable there: pending, with
-- SQL, auto-committed or with a commit marker, and without an abort marker.
pub Member-replay :
    (es : List WalEntry) (e : WalEntry) → Member e (replay es) ↔ (Member e es × IsReplayable es e)
unfolding replay
Member-replay es e = (
  λ h. let (m, t) = Member-filter (replayed es) e es h in (m, replayed-IsReplayable es e t),
  λ h. Member-filter_intro (replayed es) e es h.0 (IsReplayable-replayed es e h.1),
)
