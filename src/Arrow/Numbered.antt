-- ===== src/Arrow/Numbered.antt =====
-- Directories in which files stand in the order of their numbers: what `recover` reads from them.
use potatodb.Prelude.{
  ℕ, ◌≤◌, ◌<◌, ◌≡◌, refl, sym, ap, true, some, List, [], ◌∷◌, ◌++◌, append_assoc, append-nil,
  filter, arith,
}
use potatodb.Arrow.Name.{file_name, is_arrow}
use potatodb.Arrow.Ascending.{le_bytes-file_name, bytes_eq-file_name, is_arrow-file_name}
use potatodb.Arrow.Log.{
  Ipc, Files, put_file, read_files, has_extension, insert_sorted, sort_by_name, recover_table,
}

module _ (ipc : Ipc) where
  open ipc use {Batch, encode, decode}

  -- The files have the names of ascending numbers above `lo` and up to `hi`, and hold `batches`.
  abbrev pub Numbered : ℕ → ℕ → Files → List Batch → Type 0
  Numbered lo hi [] batches = batches ≡ []
  Numbered lo hi ((name, bytes) ∷ files) batches =
      (n : ℕ) × (first rest : List Batch) × (lo < n)
      × (n ≤ hi)
      × (name ≡ file_name n)
      × (decode bytes ≡ some first)
      × Numbered n hi files rest
      × (batches ≡ first ++ rest)

  pub Numbered-le :
      (lo hi hi' : ℕ) (files : Files) (batches : List Batch)
      → hi ≤ hi'
      → Numbered lo hi files batches
      → Numbered lo hi' files batches
  Numbered-le lo hi hi' [] batches h k = k
  Numbered-le lo hi hi' ((name, bytes) ∷ files) batches h (n, first, rest, a, b, c, d, more, e) =
      (n, first, rest, a, omega arith, c, d, Numbered-le n hi hi' files rest h more, e)

  -- The next number is put at the end.
  pub Numbered-put_file :
      (lo hi n : ℕ) (files : Files) (batches new : List Batch) (bytes : List ℕ)
      → lo < n
      → hi < n
      → n < 1000000
      → decode bytes ≡ some new
      → Numbered lo hi files batches
      → Numbered lo n (put_file files (file_name n) bytes) (batches ++ new)
  unfolding put_file
  Numbered-put_file lo hi n [] batches new bytes l h k d e =
      (n, new, [], l, omega arith, refl, d, refl, rw e (sym (append-nil new)))
  Numbered-put_file lo hi n ((name, b) ∷ files) batches new bytes l h k d
        (m, first, rest, p, q, c, at, more, e) =
      rw (c, bytes_eq-file_name m n (omega arith) k)
        (
          m,
          first,
          rest ++ new,
          p,
          omega arith,
          refl,
          at,
          Numbered-put_file m hi n files rest new bytes (omega arith) h k d more,
          rw e (append_assoc first rest new),
        )

  filter-Numbered :
      (lo hi : ℕ) (files : Files) (batches : List Batch)
      → hi < 1000000
      → Numbered lo hi files batches
      → filter has_extension files ≡ files
  filter-Numbered lo hi [] batches h k = refl
  filter-Numbered lo hi ((name, bytes) ∷ files) batches h (n, first, rest, p, q, c, at, more, e) =
      let kept : is_arrow name ≡ true = rw c (is_arrow-file_name n (omega arith)) in
      rw (kept, filter) (ap (λ fs. (name, bytes) ∷ fs) (filter-Numbered n hi files rest h more))

  insert_sorted-Numbered :
      (lo hi : ℕ) (bytes : List ℕ) (files : Files) (batches : List Batch)
      → hi < 1000000
      → Numbered lo hi files batches
      → insert_sorted (file_name lo, bytes) files ≡ (file_name lo, bytes) ∷ files
  unfolding insert_sorted
  insert_sorted-Numbered lo hi bytes [] batches h k = refl
  insert_sorted-Numbered lo hi bytes ((name, b) ∷ files) batches h
        (n, first, rest, p, q, c, at, more, e) =
      rw (c, (le_bytes-file_name lo n p (omega arith)).0) refl

  sort_by_name-Numbered :
      (lo hi : ℕ) (files : Files) (batches : List Batch)
      → hi < 1000000
      → Numbered lo hi files batches
      → sort_by_name files ≡ files
  unfolding sort_by_name
  sort_by_name-Numbered lo hi [] batches h k = refl
  sort_by_name-Numbered lo hi ((name, bytes) ∷ files) batches h
        (n, first, rest, p, q, c, at, more, e) =
      rw (sort_by_name-Numbered n hi files rest h more, c)
        (insert_sorted-Numbered n hi bytes files rest h more)

  read_files-Numbered :
      (lo hi : ℕ) (files : Files) (batches : List Batch)
      → Numbered lo hi files batches
      → read_files ipc files ≡ some batches
  unfolding read_files
  read_files-Numbered lo hi [] batches h = ap some (sym h)
  read_files-Numbered lo hi ((name, bytes) ∷ files) batches (n, first, rest, p, q, c, at, more, e) =
      rw (at, read_files-Numbered n hi files rest more) (ap some (sym e))

  pub recover_table-Numbered :
      (hi : ℕ) (files : Files) (batches : List Batch)
      → hi < 1000000
      → Numbered 0 hi files batches
      → recover_table ipc files ≡ some batches
  unfolding recover_table
  recover_table-Numbered hi files batches h k =
      rw (filter-Numbered 0 hi files batches h k, sort_by_name-Numbered 0 hi files batches h k)
        (read_files-Numbered 0 hi files batches k)
