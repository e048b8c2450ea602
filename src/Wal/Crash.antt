-- ===== src/Wal/Crash.antt =====
-- Crash atomicity: what `recover` replays of a transaction after the log was cut at any byte.
use potatodb.Prelude.{refl, ap, length, length-append}
use potatodb.Prelude.{ℕ, ◌+◌, ◌-◌, ◌≤◌, ◌≡◌, ◌≢◌, sym, ◌∙◌, inl, inr, arith}
use potatodb.Prelude.{List, [], ◌∷◌, ◌++◌, take, All, some, leb, Bool-cases}
use potatodb.Prelude.Member.{Member}
use potatodb.Wal.Crc.{Hasher}
use potatodb.Wal.Entry.{WalEntry, IsValid, pending, committed, aborted, encode_entry}
use potatodb.Wal.Log.{ok, recover, replay}
use potatodb.Wal.Codec.{size, length-encode_entry}
use potatodb.Wal.Torn.{whole, encode_log, load-take}
use potatodb.Wal.Replay.{Marked, Member-replay}

-- The bytes that some entries take up.
abbrev pub log_size : List WalEntry → ℕ
log_size [] = 0
log_size (e ∷ es) = size e + log_size es

pub Member-whole : (n : ℕ) (e : WalEntry) (es : List WalEntry) → Member e (whole n es) → Member e es
unfolding whole
Member-whole n e [] h = h
Member-whole n e (x ∷ es) h = elim (Bool-cases (leb (size x) n)) [
  | inl fits ↦ elim (rw fits at h) [
    | inl q ↦ inl q
    | inr m ↦ inr (Member-whole (n - size x) e es m)
  ]
  | inr torn ↦ absurd (rw torn at h)
]

pub Member-whole_front :
    (n : ℕ) (e : WalEntry) (front back : List WalEntry)
    → log_size front ≤ n
    → Member e front
    → Member e (whole n (front ++ back))
unfolding whole
Member-whole_front n e [] back h m = absurd m
Member-whole_front n e (x ∷ front) back h m = elim (Bool-cases (leb (size x) n)) [
  | inl fits ↦ rw fits (elim m [
    | inl q ↦ inl q
    | inr t ↦ inr (Member-whole_front (n - size x) e front back (omega arith) t)
  ])
  | inr torn ↦ absurd (ground arith)
]

pub whole_all : (n : ℕ) (es : List WalEntry) → log_size es ≤ n → whole n es ≡ es
unfolding whole
whole_all n [] h = refl
whole_all n (e ∷ es) h = elim (Bool-cases (leb (size e) n)) [
  | inl fits ↦ rw fits (ap (λ t. e ∷ t) (whole_all (n - size e) es (omega arith)))
  | inr torn ↦ absurd (ground arith)
]

module _ (crc : Hasher) where
  pub length-encode_log :
      (es : List WalEntry) → All IsValid es → length (encode_log crc es) ≡ log_size es
  unfolding encode_log
  length-encode_log [] vs = refl
  length-encode_log (e ∷ es) vs = omega (
    arith,
    length-append (encode_entry crc e) (encode_log crc es),
    length-encode_entry crc e vs.0,
    length-encode_log es vs.1,
  )

  -- After a crash that left the first `n` bytes of a log of valid entries, recovery succeeds, and
  -- its result is that of the entries which lie wholly before the cut.
  pub recover-take :
      (n : ℕ) (es : List WalEntry)
      → All IsValid es
      → recover crc (some (take n (encode_log crc es))) ≡ ok (replay (whole n es))
  unfolding recover
  recover-take n es vs = rw (load-take crc n es vs)

  -- After a cut anywhere in a log of valid entries, recovery succeeds and replays no entry `e`
  -- whose transaction is explicit and has no commit marker in the log.
  pub crash_before_commit :
      (n : ℕ) (es : List WalEntry) (e : WalEntry)
      → All IsValid es
      → e.txn_id ≢ 0
      → ¬ (Marked committed es e.txn_id)
      → (replayed : List WalEntry) × (recover crc (some (take n (encode_log crc es))) ≡ ok replayed)
        × ¬ (Member e replayed)
  crash_before_commit n es e vs explicit open_txn = (
    replay (whole n es),
    recover-take n es vs,
    λ m.
        let r = ((Member-replay (whole n es) e).0 m).1 in
        elim (r.is_committed) [
          | inl auto ↦ explicit auto
          | inr (c, at, st, tx) ↦ open_txn (c, Member-whole n c es at, st, tx)
        ],
  )

  -- Once the commit marker `m` of a transaction lies wholly before the cut, every statement of the
  -- transaction that was logged up to it is replayed, if the log holds no abort marker for it.
  pub crash_after_commit :
      (n : ℕ) (front back : List WalEntry) (m e : WalEntry)
      → All IsValid (front ++ back)
      → log_size front ≤ n
      → Member m front
      → m.status ≡ committed
      → ¬ (Marked aborted (front ++ back) m.txn_id)
      → Member e front
      → e.txn_id ≡ m.txn_id
      → e.status ≡ pending
      → e.sql ≢ []
      → (replayed : List WalEntry) × (recover crc (some (take n (encode_log crc (front ++ back))))
          ≡ ok replayed)
        × Member e replayed
  crash_after_commit n front back m e vs cut mm mc na me same ep es = (
    replay (whole n (front ++ back)),
    recover-take n (front ++ back) vs,
    (Member-replay (whole n (front ++ back)) e).1 (
      Member-whole_front n e front back cut me,
      record {
        is_pending = ep;
        has_sql = es;
        is_committed = inr (m, Member-whole_front n m front back cut mm, mc, sym same);
        not_aborted = λ (c, at, st, tx). na (c, Member-whole n c (front ++ back) at, st, tx ∙ same);
      },
    ),
  )
