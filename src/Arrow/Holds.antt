-- ===== src/Arrow/Holds.antt =====
-- What the directory of the Arrow log holds, table by table, and that each operation keeps track.
use potatodb.Prelude.{
  ℕ, ◌≤◌, ◌<◌, ◌≡◌, ◌≢◌, refl, sym, ◌∙◌, subst, String, Bool, true, false, Option, none, some, List,
  [], ◌∷◌, ◌++◌, All, if◌then◌else◌, str_eq, str_eq_iff, Bool-cases, Option-cases, inl, inr, arith,
}
use potatodb.Prelude.HashMap.{
  HashMap, get, insert, remove, get-insert, Fresh, Unique, Unique-insert,
}
use potatodb.Arrow.Log.{
  Ipc, Files, Disk, ArrowWal, Faults, Outcome, ◌>>=◌, contains, make_dir, sync, open_dir, recover,
}
use potatodb.Arrow.Numbered.{Numbered, Numbered-le, recover_table-Numbered}

-- Where an operation returns Ok, the log that it leaves has the property.
abbrev pub Then : (ArrowWal → Type 0) → Outcome → Type 0
Then P (Outcome.ok w) = P w
Then P (Outcome.err w) = Unit {0}

pub Then-bind :
    (P Q : ArrowWal → Type 0) (m : Outcome) (f : ArrowWal → Outcome)
    → Then P m
    → ((w : ArrowWal) → P w → Then Q (f w))
    → Then Q (m >>= f)
Then-bind P Q (Outcome.ok w) f h k = k w h
Then-bind P Q (Outcome.err w) f h k = tt

module _ {V : Type 0} (P : String × V → Type 0) where
  pub All-get : (m : HashMap V) (k : String) (v : V) → All P m → get m k ≡ some v → P (k, v)
  unfolding get
  All-get [] k v h e = cc
  All-get ((j, w) ∷ m) k v h e = elim (Bool-cases (str_eq j k)) [
    | inl q ↦ let same : (j, w) ≡ (k, v) = ground (arith, str_eq_iff j k, e, q) in subst P same h.0
    | inr q ↦ All-get m k v h.1 (rw q at e)
  ]

pub get-insert-none :
    {V : Type 0} (m : HashMap V) (k t : String) (v : V)
    → get (insert m k v) t ≡ none
    → (str_eq k t ≡ false) × (get m t ≡ none)
get-insert-none m k t v e = ground (arith, get-insert m k t v, e)

module _ {V : Type 0} (P Q : String × V → Type 0) where
  -- A property of the entries that another key has.
  pub All-remove :
      (m : HashMap V) (k : String)
      → ((j : String) (v : V) → str_eq k j ≡ false → P (j, v) → Q (j, v))
      → All P m
      → All Q (remove m k)
  unfolding remove
  All-remove [] k f h = tt
  All-remove ((j, v) ∷ m) k f h = elim (Bool-cases (str_eq j k)) [
    | inl q ↦ rw q (All-remove m k f h.1)
    | inr q ↦
        let other : str_eq k j ≡ false = ground (arith, str_eq_iff k j, str_eq_iff j k, q) in
        rw q (f j v other h.0, All-remove m k f h.1)
  ]

module _ (ipc : Ipc) where
  open ipc use {Batch, encode}

  abbrev pub Logged : Type 0
  Logged = String → List Batch

  abbrev pub added : String → List Batch → Logged → Logged
  added table batches log t = if str_eq table t then log t ++ batches else log t

  abbrev pub cleared : String → Logged → Logged
  cleared table log t = if str_eq table t then [] else log t

  abbrev pub Holding : ℕ → Logged → String × Files → Type 0
  Holding hi log (table, files) = Numbered ipc 0 hi files (log table)

  -- Every directory holds what is logged for its table, in files numbered up to `hi`.
  pub record Holds (dir : Disk) (hi : ℕ) (log : Logged) : Type 0 where
    pub entries : All (Holding hi log) dir
    pub absent : (t : String) → get dir t ≡ none → log t ≡ []
    pub unique : Unique dir

  -- A directory's files are replaced, and the others stay.
  pub Holds-insert :
      (dir : Disk) (hi hi' : ℕ) (log log' : Logged) (table : String) (files : Files)
      → Holds dir hi log
      → hi ≤ hi'
      → Numbered ipc 0 hi' files (log' table)
      → ((t : String) → str_eq table t ≡ false → log' t ≡ log t)
      → Holds (insert dir table files) hi' log'
  unfolding insert
  Holds-insert dir hi hi' log log' table files h le new old = record {
    entries = (
      new,
      All-remove (Holding hi log) (Holding hi' log') dir table
          (λ j v q k.
            subst (λ bs. Numbered ipc 0 hi' v bs) (sym (old j q))
              (Numbered-le ipc 0 hi hi' v (log j) le k))
          h.entries,
    );
    absent = λ t e.
        let (other, gone) = get-insert-none dir table t files e in old t other ∙ h.absent t gone;
    unique = Unique-insert dir table files h.unique;
  }

  abbrev Recovers : Logged → String × List Batch → Type 0
  Recovers log (table, batches) = batches ≡ log table

  recover-Holds :
      (dir : Disk) (hi : ℕ) (log : Logged)
      → hi < 1000000
      → Unique dir
      → All (Holding hi log) dir
      → (m : HashMap (List Batch)) × (recover ipc dir ≡ some m)
        × All (Recovers log) m
        × Unique m
        × ((t : String) → get dir t ≢ none → get m t ≡ some (log t))
        × ((t : String) → get dir t ≡ none → get m t ≡ none)
        × ((t : String) → Fresh t dir → Fresh t m)
  unfolding recover get
  recover-Holds [] hi log lt unique h =
      ([], refl, tt, tt, λ t ne. absurd (ne refl), λ t e. refl, λ t f. tt)
  recover-Holds ((table, files) ∷ dir) hi log lt unique h =
      let (m, e, all, distinct, found, missing, fresh) = recover-Holds dir hi log lt unique.1 h.1 in
      let here = recover_table-Numbered ipc hi files (log table) lt h.0 in
      (
        (table, log table) ∷ m,
        rw (here, e) refl,
        (refl, all),
        (fresh table unique.0, distinct),
        λ t g. elim (Bool-cases (str_eq table t)) [
          | inl q ↦ rw (q, (str_eq_iff table t).0 q) refl
          | inr q ↦ rw q (found t (rw q at g))
        ],
        λ t g. elim (Bool-cases (str_eq table t)) [
          | inl q ↦ cc (rw q at g)
          | inr q ↦ rw q (missing t (rw q at g))
        ],
        λ t f. (f.0, fresh t f.1),
      )

  unfoldable pub batches_of : Option (List Batch) → List Batch
  batches_of none = []
  batches_of (some bs) = bs

  -- What is recovered is what is logged, for every table, and each table once.
  pub recover-batches :
      (dir : Disk) (hi : ℕ) (log : Logged)
      → hi < 1000000
      → Holds dir hi log
      → (m : HashMap (List Batch)) × (recover ipc dir ≡ some m)
        × Unique m
        × ((t : String) → batches_of (get m t) ≡ log t)
  unfolding batches_of
  recover-batches dir hi log lt h =
      let (m, e, all, distinct, found, missing, fresh) =
        recover-Holds dir hi log lt h.unique h.entries in
      (
        m,
        e,
        distinct,
        λ t. elim (Option-cases (get dir t)) [
          | inl q ↦ rw (missing t q) (sym (h.absent t q))
          | inr (files, q) ↦ rw (found t (λ z. cc)) refl
        ],
      )

  make_dir-Holds :
      (dir : Disk) (hi : ℕ) (log : Logged) (table : String)
      → Holds dir hi log
      → Holds (make_dir dir table) hi log
  unfolding make_dir
  make_dir-Holds dir hi log table h = elim (Option-cases (get dir table)) [
    | inl q ↦
        rw (make_dir, q)
          (Holds-insert dir hi hi log log table [] h (omega arith) (h.absent table q)
            (λ t other. refl))
    | inr (files, q) ↦ rw (make_dir, q) h
  ]

  -- The log of a table and the state of its directories.
  abbrev pub Keeps : Logged → ℕ → ArrowWal → Type 0
  Keeps log hi w = Holds w.dir hi log × (w.seq ≡ hi)

  pub open_dir-Keeps :
      (f : Faults) (w : ArrowWal) (table : String) (log : Logged)
      → Holds w.dir w.seq log
      → Then (Keeps log w.seq) (open_dir f w table)
  unfolding open_dir
  open_dir-Keeps f w table log h = elim (Bool-cases (contains w.known_dirs table)) [
    | inl k ↦ rw k (h, refl)
    | inr k ↦ rw k (made f.made)
  ]
    where
      made :
          (b : Bool)
          → Then (Keeps log w.seq) (
              if b
              then Outcome.ok
                  (record w { known_dirs = table ∷ w.known_dirs; dir = make_dir w.dir table })
              else Outcome.err (record w { known_dirs = table ∷ w.known_dirs }))
      made true = (make_dir-Holds w.dir w.seq log table h, refl)
      made false = tt

  pub sync-Keeps :
      (f : Faults) (now : ℕ) (w : ArrowWal) (log : Logged) (hi : ℕ)
      → Keeps log hi w
      → Then (Keeps log hi) (sync f now w)
  unfolding sync
  sync-Keeps f now w log hi h = ground arith
