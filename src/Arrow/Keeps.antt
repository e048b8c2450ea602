-- ===== src/Arrow/Keeps.antt =====
-- Appends, checkpoints and reopening keep track of what is logged.
use potatodb.Prelude.{
  ℕ, ◌+◌, ◌≤◌, ◌<◌, ◌≡◌, refl, sym, subst, String, Bool, true, false, Option, none, some, List, [],
  ◌∷◌, append-nil, take, if◌then◌else◌, str_eq_iff, Option-cases, inl, inr, arith,
}
use potatodb.Prelude.HashMap.{get, insert}
use potatodb.Arrow.Log.{
  Ipc, Files, Disk, ArrowWal, Faults, Outcome, put_file, sync, write_into, write_encoded, open_dir,
  next_seq, append,
}
use mathlib.Core.Path.{fun_ext}
use potatodb.Arrow.Name.{file_name}
use potatodb.Arrow.Numbered.{Numbered-put_file}
use potatodb.Arrow.Holds.{
  Then, Then-bind, All-get, Logged, added, Holding, Holds, Holds-insert, Keeps, open_dir-Keeps,
  sync-Keeps,
}

module _ (ipc : Ipc) where
  open ipc use {Batch, encode}

  pub Holds-ext :
      (dir : Disk) (hi : ℕ) (log log' : Logged ipc)
      → ((t : String) → log' t ≡ log t)
      → Holds ipc dir hi log
      → Holds ipc dir hi log'
  Holds-ext dir hi log log' same h = subst (λ l. Holds ipc dir hi l) (sym (fun_ext same)) h

  write_into-Keeps :
      (f : Faults) (now : ℕ) (w : ArrowWal) (table : String) (bytes : List ℕ) (new : List Batch)
      (log : Logged ipc) (hi : ℕ) (o : Option Files)
      → get w.dir table ≡ o
      → hi < w.seq
      → w.seq < 1000000
      → encode new ≡ some bytes
      → Holds ipc w.dir hi log
      → Then (Keeps ipc (added ipc table new log) w.seq) (write_into f now w table bytes o)
  write_into-Keeps f now w table bytes new log hi none at below lt e h = tt
  write_into-Keeps f now w table bytes new log hi (some files) at below lt e h = created f.created
    where
      put :
          Holds ipc
            (insert w.dir table (put_file files (file_name w.seq) bytes))
            w.seq
            (added ipc table new log)
      put =
          Holds-insert ipc w.dir hi w.seq log (added ipc table new log) table
            (put_file files (file_name w.seq) bytes) h (omega arith)
            (rw ((str_eq_iff table table).1 refl) (
              Numbered-put_file ipc 0 hi w.seq files (log table) new bytes (omega arith) below lt
                (ipc.decode-encode new bytes e)
                (All-get (Holding ipc hi log) w.dir table files h.entries at)))
            (λ t other. rw other refl)

      written :
          (o : Option ℕ)
          → Then (Keeps ipc (added ipc table new log) w.seq) (elim o [
            | none ↦
                sync f now
                  (record w { dir = insert w.dir table (put_file files (file_name w.seq) bytes) })
            | some k ↦ Outcome.err (record w {
              dir = insert w.dir table (put_file files (file_name w.seq) (take k bytes));
            })
          ])
      written none = sync-Keeps ipc f now _ (added ipc table new log) w.seq (put, refl)
      written (some k) = tt

      created :
          (b : Bool)
          → Then (Keeps ipc (added ipc table new log) w.seq) (
              if b
              then elim f.written [
                | none ↦
                    sync f now (record w {
                      dir = insert w.dir table (put_file files (file_name w.seq) bytes);
                    })
                | some k ↦ Outcome.err (record w {
                  dir = insert w.dir table (put_file files (file_name w.seq) (take k bytes));
                })
              ]
              else Outcome.err w)
      created true = written f.written
      created false = tt

  -- The log with the batches of an append, which may take one more number.
  abbrev pub Appended : Logged ipc → ℕ → ArrowWal → Type 0
  Appended log hi w = Holds ipc w.dir w.seq log × (w.seq ≤ hi + 1)

  weaken :
      (m : Outcome) (log : Logged ipc) (hi : ℕ)
      → Then (Keeps ipc log (hi + 1)) m
      → Then (Appended log hi) m
  weaken (Outcome.ok w) log hi h =
      (subst (λ n. Holds ipc w.dir n log) (sym h.1) h.0, omega (arith, h.1))
  weaken (Outcome.err w) log hi h = tt

  encoded :
      (f : Faults) (now : ℕ) (w : ArrowWal) (table : String) (new : List Batch) (log : Logged ipc)
      (hi : ℕ)
      → Keeps ipc log hi w
      → hi + 1 < 1000000
      → Then
          (Appended (added ipc table new log) hi)
          (write_encoded f now (next_seq w) table (encode new))
  encoded f now w table new log hi (h, s) lt = elim (Option-cases (encode new)) [
    | inl q ↦ rw q tt
    | inr (bytes, q) ↦
        let next : (next_seq w).seq ≡ hi + 1 = omega (arith, s) in
        rw (q, write_encoded)
          (weaken _ (added ipc table new log) hi (
            subst
              (λ n.
                Then (Keeps ipc (added ipc table new log) n)
                  (write_into f now (next_seq w) table bytes (get w.dir table)))
              next
              (write_into-Keeps f now (next_seq w) table bytes new log hi (get w.dir table) refl
                (omega (arith, next)) (omega (arith, next)) q h)))
  ]

  pub append-Appended :
      (f : Faults) (now : ℕ) (table : String) (new : List Batch) (w : ArrowWal) (log : Logged ipc)
      → Holds ipc w.dir w.seq log
      → w.seq + 1 < 1000000
      → Then (Appended (added ipc table new log) w.seq) (append ipc f now table new w)
  unfolding append
  append-Appended f now table [] w log h lt = (
    Holds-ext w.dir w.seq log (added ipc table [] log) (λ t. ground (arith, append-nil (log t))) h,
    omega arith,
  )
  append-Appended f now table (b ∷ new) w log h lt =
      Then-bind (Keeps ipc log w.seq) (Appended (added ipc table (b ∷ new) log) w.seq)
        (open_dir f w table) _ (open_dir-Keeps ipc f w table log h)
        λ w1 k. encoded f now w1 table (b ∷ new) log w.seq k lt
