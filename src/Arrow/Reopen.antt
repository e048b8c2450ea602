-- ===== src/Arrow/Reopen.antt =====
-- Checkpoints and reopening keep track of what is logged.
use potatodb.Prelude.{
  unwrap_or, ℕ, ◌≤◌, ◌<◌, ◌≡◌, ◌⊎◌, refl, sym, ap, ◌∙◌, subst, String, Bool, true, Option, none,
  some, List, [], ◌∷◌, All, max, str_eq, str_eq_iff, Bool-cases, Option-cases, inl, inr, arith,
}
use potatodb.Prelude.HashMap.{HashMap, get, insert, remove, get-remove, Unique-remove}
use potatodb.Arrow.Log.{
  Ipc, Files, Disk, ArrowWal, ArrowWalSyncPolicy, Faults, Outcome, checkpoint_table, remove_dirs,
  removed, forget, checkpoint_all, max_with, max_in_files, max_existing_seq, open_with_config,
}
use potatodb.Arrow.Name.{file_stem, parse_u64}
use potatodb.Arrow.Ascending.{parse_u64-file_name}
use potatodb.Arrow.Numbered.{Numbered, Numbered-le}
use potatodb.Arrow.Holds.{Then, All-remove, Logged, cleared, Holding, Holds, Keeps}
use potatodb.Arrow.Keeps.{Holds-ext}

get-remove-none :
    {V : Type 0} (m : HashMap V) (k t : String)
    → get (remove m k) t ≡ none
    → (str_eq k t ≡ true) ⊎ (get m t ≡ none)
get-remove-none m k t e = elim (Bool-cases (str_eq k t)) [
  | inl q ↦ inl q
  | inr q ↦ inr (ground (arith, get-remove m k t, e, q))
]

module _ (ipc : Ipc) where
  pub checkpoint_table-Keeps :
      (f : Faults) (table : String) (w : ArrowWal) (log : Logged ipc) (hi : ℕ)
      → Keeps ipc log hi w
      → Then (Keeps ipc (cleared ipc table log) hi) (checkpoint_table f table w)
  unfolding checkpoint_table
  checkpoint_table-Keeps f table w log hi (h, s) = found (get w.dir table) refl
    where
      forgotten : List String
      forgotten = forget w.known_dirs table

      gone : Holds ipc (remove w.dir table) hi (cleared ipc table log)
      gone = record {
        entries =
            All-remove (Holding ipc hi log) (Holding ipc hi (cleared ipc table log)) w.dir table
              (λ j v q k. rw q k) h.entries;
        absent = λ t e. elim (get-remove-none w.dir table t e) [
          | inl q ↦ rw q refl
          | inr q ↦ ground (arith, h.absent t q)
        ];
        unique = Unique-remove w.dir table h.unique;
      }

      missing : get w.dir table ≡ none → (t : String) → cleared ipc table log t ≡ log t
      missing e t = elim (Bool-cases (str_eq table t)) [
        | inl q ↦ rw q (sym (ap log (sym ((str_eq_iff table t).0 q)) ∙ h.absent table e))
        | inr q ↦ rw q refl
      ]

      found :
          (o : Option Files)
          → get w.dir table ≡ o
          → Then (Keeps ipc (cleared ipc table log) hi) (elim o [
            | none ↦ Outcome.ok (record w { known_dirs = forget w.known_dirs table })
            | some files ↦ elim (f.left table) [
              | none ↦
                  Outcome.ok
                    (record w { dir = remove w.dir table; known_dirs = forget w.known_dirs table })
              | some rest ↦ Outcome.err (record w { dir = insert w.dir table rest })
            ]
          ])
      found none e = (Holds-ext ipc w.dir hi log (cleared ipc table log) (missing e) h, s)
      found (some files) e = left (f.left table)
        where
          left :
              (o : Option Files)
              → Then (Keeps ipc (cleared ipc table log) hi) (elim o [
                | none ↦
                    Outcome.ok (record w {
                      dir = remove w.dir table;
                      known_dirs = forget w.known_dirs table;
                    })
                | some rest ↦ Outcome.err (record w { dir = insert w.dir table rest })
              ])
          left none = (gone, s)
          left (some rest) = tt

  abbrev pub nothing : Logged ipc
  nothing t = []

  pub checkpoint_all-Keeps :
      (f : Faults) (w : ArrowWal) → Then (Keeps ipc nothing w.seq) (checkpoint_all f w)
  unfolding checkpoint_all get
  checkpoint_all-Keeps f w = go w.dir
    where
      go : (dir : Disk) → Then (Keeps ipc nothing w.seq) (removed w (remove_dirs f dir))
      go [] = (record { entries = tt; absent = λ t e. refl; unique = tt }, refl)
      go ((table, files) ∷ dir) = elim (Option-cases (f.left table)) [
        | inl q ↦ rw (q, remove_dirs) (go dir)
        | inr (rest, q) ↦ rw (q, remove_dirs) tt
      ]

  -- The greatest number of a file is at least that of each, and at most the bound there was.
  max_in_files_bound :
      (lo hi : ℕ) (files : Files) (batches : List ipc.Batch) (so_far : Option ℕ)
      → hi < 1000000
      → unwrap_or so_far 0 ≤ hi
      → Numbered ipc lo hi files batches
      → (unwrap_or (max_in_files files so_far) 0 ≤ hi)
        × (unwrap_or so_far 0 ≤ unwrap_or (max_in_files files so_far) 0)
        × Numbered ipc lo (unwrap_or (max_in_files files so_far) 0) files batches
  unfolding max_in_files
  max_in_files_bound lo hi [] batches so_far lt le h = (le, omega arith, h)
  max_in_files_bound lo hi ((name, bytes) ∷ files) batches so_far lt le
        (n, first, rest, p, q, c, at, more, e) =
      let next = max_with (parse_u64 (file_stem name)) so_far in
      let number : parse_u64 (file_stem name) ≡ some n =
        rw c (parse_u64-file_name n (omega arith)) in
      let (grows, fits) = grown n so_far in
      let step : unwrap_or next 0 ≡ unwrap_or (max_with (some n) so_far) 0 =
        ap (λ o. unwrap_or (max_with o so_far) 0) number in
      let (below, above, kept) =
        max_in_files_bound n hi files rest next lt (omega (arith, step, fits)) more in
      (
        below,
        omega (arith, step, above, grows),
        (n, first, rest, p, omega (arith, step, above, grows), c, at, kept, e),
      )
    where
      grown :
          (n : ℕ) (o : Option ℕ)
          → ((n ≤ unwrap_or (max_with (some n) o) 0)
              × (unwrap_or o 0 ≤ unwrap_or (max_with (some n) o) 0))
            × (unwrap_or (max_with (some n) o) 0 ≤ max n (unwrap_or o 0))
      grown n none = omega arith
      grown n (some m) = omega arith

  entries_le :
      (hi hi' : ℕ) (log : Logged ipc) (dir : Disk)
      → hi ≤ hi'
      → All (Holding ipc hi log) dir
      → All (Holding ipc hi' log) dir
  entries_le hi hi' log [] le h = tt
  entries_le hi hi' log ((table, files) ∷ dir) le h =
      (Numbered-le ipc 0 hi hi' files (log table) le h.0, entries_le hi hi' log dir le h.1)

  next_dir :
      (readable : String → Bool) (table : String) (files : Files) (dir : Disk) (so_far : Option ℕ)
      → readable table ≡ true
      → max_existing_seq readable ((table, files) ∷ dir) so_far
        ≡ max_existing_seq readable dir (max_in_files files so_far)
  unfolding max_existing_seq
  next_dir readable table files dir so_far h = rw (h, max_existing_seq) refl

  -- A number that lies between, and bounds the numbers of the files.
  abbrev Found : ℕ → Logged ipc → Disk → ℕ → ℕ → Type 0
  Found hi log dir lo n = (n ≤ hi) × (lo ≤ n) × All (Holding ipc n log) dir

  max_existing_seq_bound :
      (readable : String → Bool) (hi : ℕ) (log : Logged ipc) (dir : Disk) (so_far : Option ℕ)
      → ((t : String) → readable t ≡ true)
      → hi < 1000000
      → unwrap_or so_far 0 ≤ hi
      → All (Holding ipc hi log) dir
      → Found hi log dir (unwrap_or so_far 0) (unwrap_or (max_existing_seq readable dir so_far) 0)
  max_existing_seq_bound readable hi log [] so_far all lt le h =
      unfold max_existing_seq in (le, omega arith, tt)
  max_existing_seq_bound readable hi log ((table, files) ∷ dir) so_far all lt le h =
      let next = max_in_files files so_far in
      let (fits, grows, here) = max_in_files_bound 0 hi files (log table) so_far lt le h.0 in
      let (below, above, rest) = max_existing_seq_bound readable hi log dir next all lt fits h.1 in
      subst (λ o. Found hi log ((table, files) ∷ dir) (unwrap_or so_far 0) (unwrap_or o 0))
        (sym (next_dir readable table files dir so_far (all table)))
        (
          below,
          omega (arith, grows, above),
          (Numbered-le ipc 0 (unwrap_or next 0) _ files (log table) above here, rest),
        )

  -- Reopening finds the greatest number again.
  pub open-Holds :
      (f : Faults) (sync_policy : ArrowWalSyncPolicy) (now : ℕ) (dir : Disk) (hi : ℕ)
      (log : Logged ipc) (w : ArrowWal)
      → ((t : String) → f.readable t ≡ true)
      → hi < 1000000
      → Holds ipc dir hi log
      → open_with_config f sync_policy now dir ≡ some w
      → Holds ipc w.dir w.seq log × (w.seq ≤ hi)
  unfolding open_with_config
  open-Holds f sync_policy now dir hi log w all lt h e =
      let (below, above, kept) =
        max_existing_seq_bound f.readable hi log dir none all lt (omega arith) h.entries in
      let seq : w.seq ≡ unwrap_or (max_existing_seq f.readable dir none) 0 = ground (arith, e) in
      let same : w.dir ≡ dir = ground (arith, e) in
      (
        rw (same, seq) (record { entries = kept; absent = h.absent; unique = h.unique }),
        omega (arith, seq, below),
      )
