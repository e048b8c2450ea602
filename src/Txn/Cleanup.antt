-- ===== src/Txn/Cleanup.antt =====
-- Which files ROLLBACK leaves.
use potatodb.Prelude.{
  ◌≡◌, refl, ap, ◌∙◌, String, Bool, true, false, not, ◌||◌, ◌&&◌, some, List, [], ◌∷◌, filter,
  str_eq, str_eq_iff, if◌then◌else◌, arith, Bool-cases, inl, inr,
}
use potatodb.Prelude.HashMap.{HashMap}
use potatodb.Catalog.Types.{TableMeta}
use potatodb.Catalog.State.{Catalog}
use potatodb.Txn.State.{Env}
use potatodb.Txn.Files.{
  is_parquet, has_name, keys, try_delete, delete_new, delete_new_files, delete_entries,
  delete_table_storage, delete_new_tables,
}

-- A remote store that lists and deletes without failing: a deletion takes the file out of every listing,
-- and registering the tables again changes no listing.
pub record Reliable (e : Env) : Type 0 where
  pub files : e.Disk → String → List String
  pub removed : e.Disk → String → e.Disk
  pub list-files : (d : e.Disk) (t : String) → e.list_objects d t ≡ some (files d t)
  pub delete-removed : (d : e.Disk) (f : String) → e.delete_object d f ≡ some (removed d f)
  pub files-removed :
      (d : e.Disk) (f t : String)
      → files (removed d f) t ≡ filter (λ x. not (str_eq x f)) (files d t)
  pub files-reload :
      (c : Catalog) (d : e.Disk) (t : String) → files (e.reload_tables c d).0 t ≡ files d t
  pub is_remote : e.is_local_disk ≡ false

pub str_eq_comm : (x y : String) → str_eq x y ≡ str_eq y x
str_eq_comm x y = ground (arith, str_eq_iff x y, str_eq_iff y x)

-- A test that holds of one of two equal strings holds of the other.
pub same_test : (p : String → Bool) (x y : String) → str_eq x y ≡ true → p x ≡ p y
same_test p x y h = ap p ((str_eq_iff x y).0 h)

pub has_name-filter :
    (p : String → Bool) (x : String) (xs : List String)
    → has_name (filter p xs) x ≡ (has_name xs x && p x)
unfolding has_name
has_name-filter p x [] = refl
has_name-filter p x (y ∷ ys) = elim (Bool-cases (p y)) [
  | inl h ↦ rw (has_name, h) (ground (arith, has_name-filter p x ys, same_test p y x, h))
  | inr h ↦ rw (has_name, h) (ground (arith, has_name-filter p x ys, same_test p y x, h))
]

module _ (e : Env) (r : Reliable e) where
  open e use {Disk}

  abbrev pub stored : Disk → String → String → Bool
  stored d t f = has_name (r.files d t) f

  stored-removed :
      (d : Disk) (g t f : String) → stored (r.removed d g) t f ≡ (stored d t f && not (str_eq f g))
  stored-removed d g t f =
      ap (λ l. has_name l f) (r.files-removed d g t)
      ∙ has_name-filter (λ x. not (str_eq x g)) f (r.files d t)

  try_delete-removed : (d : Disk) (f : String) → try_delete e d f ≡ r.removed d f
  try_delete-removed d f = rw (try_delete, r.delete-removed d f) refl

  stored-delete_new :
      (old files : List String) (d : Disk) (t f : String)
      → stored (delete_new e old files d) t f
        ≡ (stored d t f && not (has_name files f && not (has_name old f)))
  unfolding delete_new has_name
  stored-delete_new old [] d t f = ground arith
  stored-delete_new old (g ∷ files) d t f = elim (Bool-cases (has_name old g)) [
    | inl h ↦
        rw (has_name, h)
          (ground (arith, stored-delete_new old files d t f, same_test (has_name old) g f, h))
    | inr h ↦
        rw (h, try_delete-removed d g)
          (ground (
            arith,
            stored-delete_new old files (r.removed d g) t f,
            stored-removed d g t f,
            same_test (has_name old) g f,
            str_eq_comm f g,
            h,
          ))
  ]

  -- A file is newer than a snapshot if it is listed in one of its tables and not in the snapshot.
  unfoldable pub newer : HashMap (List String) → Disk → String → Bool
  unfolding has_name is_parquet
  newer [] d f = false
  newer ((table, old) ∷ snapshot) d f =
      ((stored d table f && is_parquet f) && not (has_name old f)) || newer snapshot d f

  -- A file belongs to tables that are not in the snapshot.
  unfoldable pub unknown : HashMap (List String) → HashMap TableMeta → Disk → String → Bool
  unfolding has_name
  unknown snapshot [] d f = false
  unknown snapshot ((name, meta) ∷ tables) d f =
      (not (has_name (keys snapshot) name) && stored d meta.name f) || unknown snapshot tables d f

  abbrev pub Same : Disk → Disk → String → Type 0
  Same d1 d f = (t : String) → stored d1 t f ≡ stored d t f

  newer-Same :
      (snapshot : HashMap (List String)) (d1 d : Disk) (f : String)
      → Same d1 d f
      → newer snapshot d1 f ≡ newer snapshot d f
  unfolding newer
  newer-Same [] d1 d f h = refl
  newer-Same ((table, old) ∷ snapshot) d1 d f h = rw (newer-Same snapshot d1 d f h, h table) refl

  pub unknown-Same :
      (snapshot : HashMap (List String)) (tables : HashMap TableMeta) (d1 d : Disk) (f : String)
      → Same d1 d f
      → unknown snapshot tables d1 f ≡ unknown snapshot tables d f
  unfolding unknown
  unknown-Same snapshot [] d1 d f h = refl
  unknown-Same snapshot ((name, meta) ∷ tables) d1 d f h =
      rw (unknown-Same snapshot tables d1 d f h, h meta.name) refl

  -- Two sweeps in a row, of which the second asks what the first has left.
  pub swept :
      (Q : Disk → Bool) (d d1 d2 : Disk) (t f : String) (hit : Bool)
      → ((u : String) → stored d1 u f ≡ (stored d u f && not hit))
      → (Same d1 d f → Q d1 ≡ Q d)
      → stored d2 t f ≡ (stored d1 t f && not (Q d1))
      → stored d2 t f ≡ (stored d t f && not (hit || Q d))
  swept Q d d1 d2 t f true step same rest = ground (arith, step t)
  swept Q d d1 d2 t f false step same rest =
      let all : Same d1 d f = λ u. ground (arith, step u) in ground (arith, all t, same all)

  pub stored-delete_new_files :
      (snapshot : HashMap (List String)) (d : Disk) (t f : String)
      → stored (delete_new_files e snapshot d) t f ≡ (stored d t f && not (newer snapshot d f))
  unfolding delete_new_files newer
  stored-delete_new_files [] d t f = ground arith
  stored-delete_new_files ((table, old) ∷ snapshot) d t f = rw (r.list-files d table) (
      let files = filter is_parquet (r.files d table) in
      swept (λ x. newer snapshot x f) d (delete_new e old files d) _ t f
        ((stored d table f && is_parquet f) && not (has_name old f))
        (λ u.
          stored-delete_new old files d u f
          ∙ ap (λ b. stored d u f && not (b && not (has_name old f)))
              (has_name-filter is_parquet f (r.files d table)))
        (newer-Same snapshot (delete_new e old files d) d f)
        (stored-delete_new_files snapshot (delete_new e old files d) t f))

  stored-delete_entries :
      (files : List String) (d : Disk) (t f : String)
      → stored (delete_entries e files d).0 t f ≡ (stored d t f && not (has_name files f))
  unfolding delete_entries has_name
  stored-delete_entries [] d t f = ground arith
  stored-delete_entries (g ∷ files) d t f =
      rw (delete_entries, r.delete-removed d g)
        (ground (
          arith,
          stored-delete_entries files (r.removed d g) t f,
          stored-removed d g t f,
          str_eq_comm f g,
        ))

  stored-delete_table_storage :
      (meta : TableMeta) (d : Disk) (t f : String)
      → stored (delete_table_storage e meta d).0 t f ≡ (stored d t f && not (stored d meta.name f))
  unfolding delete_table_storage
  stored-delete_table_storage meta d t f =
      rw (r.is_remote, r.list-files d meta.name) (stored-delete_entries (r.files d meta.name) d t f)

  pub stored-delete_new_tables :
      (snapshot : HashMap (List String)) (tables : HashMap TableMeta) (d : Disk) (t f : String)
      → stored (delete_new_tables e snapshot tables d) t f
        ≡ (stored d t f && not (unknown snapshot tables d f))
  unfolding delete_new_tables unknown
  stored-delete_new_tables snapshot [] d t f = ground arith
  stored-delete_new_tables snapshot ((name, meta) ∷ tables) d t f =
      let known = has_name (keys snapshot) name in
      let d1 = if known then d else (delete_table_storage e meta d).0 in
      swept (λ x. unknown snapshot tables x f) d d1 _ t f (not known && stored d meta.name f)
        (step known) (unknown-Same snapshot tables d1 d f)
        (stored-delete_new_tables snapshot tables d1 t f)
    where
      step :
          (known : Bool) (u : String)
          → stored (if known then d else (delete_table_storage e meta d).0) u f
            ≡ (stored d u f && not (not known && stored d meta.name f))
      step true u = ground arith
      step false u = stored-delete_table_storage meta d u f
