-- ===== src/Txn/Stack.antt =====
-- Savepoints form a stack, and what ROLLBACK TO leaves for a later ROLLBACK.
use potatodb.Prelude.{
  suc, ◌+◌, ◌≡◌, refl, sym, ap, ◌∙◌, subst, String, false, Option, none, some, List, [], ◌∷◌, ◌++◌,
  take, get_elem?, length, All, str_eq, str_eq_iff, arith,
}
use potatodb.Prelude.HashMap.{HashMap}
use potatodb.Catalog.State.{Catalog, snapshot, restore}
use potatodb.Txn.State.{
  Env, Db, Transaction, Savepoint, message, failed, no_transaction, no_such_savepoint,
}
use potatodb.Txn.Files.{keys, snapshot_files}
use potatodb.Txn.Control.{drop_newer}
use potatodb.Txn.Savepoints.{
  rposition, push_savepoint, savepoint_with, handle_savepoint, retaken, rollback_to_savepoint, cut,
  rollback_to_index, handle_rollback_to, release_index, handle_release_savepoint,
}
use potatodb.Txn.Restores.{Ends, Ends-bind, Holds, on_disk-Holds, no_backups}

module _ {A : Type 0} where
  get_elem?-middle :
      (xs ys : List A) (x : A) → get_elem? ((xs ++ x ∷ []) ++ ys) (length xs) ≡ some x
  get_elem?-middle [] ys x = refl
  get_elem?-middle (y ∷ xs) ys x = get_elem?-middle xs ys x

  take-middle :
      (xs ys : List A) (x : A) → take (length xs + 1) ((xs ++ x ∷ []) ++ ys) ≡ xs ++ x ∷ []
  take-middle [] ys x = refl
  take-middle (y ∷ xs) ys x =
      let more : suc (length xs) + 1 ≡ suc (length xs + 1) = omega arith in
      ap (λ n. take n (y ∷ ((xs ++ x ∷ []) ++ ys))) more ∙ ap (λ t. y ∷ t) (take-middle xs ys x)

  take-front : (xs ys : List A) (x : A) → take (length xs) ((xs ++ x ∷ []) ++ ys) ≡ xs
  take-front [] ys x = refl
  take-front (y ∷ xs) ys x = ap (λ t. y ∷ t) (take-front xs ys x)

module _ {e : Env} where
  abbrev pub OtherNames : String → List (Savepoint e) → Type 0
  OtherNames name sps = All (λ sp. str_eq sp.name name ≡ false) sps

  rposition-others :
      (name : String) (sps : List (Savepoint e)) → OtherNames name sps → rposition e name sps ≡ none
  unfolding rposition
  rposition-others name [] h = refl
  rposition-others name (sp ∷ sps) h = rw (rposition-others name sps h.1, h.0) refl

  -- The last savepoint of a name is found.
  rposition_last :
      (name : String) (xs later : List (Savepoint e)) (sp : Savepoint e)
      → sp.name ≡ name
      → OtherNames name later
      → rposition e name ((xs ++ sp ∷ []) ++ later) ≡ some (length xs)
  unfolding rposition
  rposition_last name [] later sp h k =
      rw (rposition-others name later k, (str_eq_iff sp.name name).1 h) refl
  rposition_last name (x ∷ xs) later sp h k =
      rw (rposition_last name xs later sp h k) (ap some (omega arith))

  -- What SAVEPOINT pushes.
  abbrev pub Pushed : String → Transaction e → Db e → Db e → Type 0
  Pushed name txn d d1 =
      (sp : Savepoint e) × (d1.active_txn
        ≡ some (record txn { savepoints = txn.savepoints ++ sp ∷ [] }))
      × (sp.name ≡ name)
      × (sp.catalog_snapshot ≡ snapshot d.catalog)
      × (sp.rewrite_backups ≡ txn.rewrite_backups)

  savepoint_with-Pushed :
      (name : String) (txn : Transaction e) (d : Db e) (o : Option (HashMap (List String)))
      → d.active_txn ≡ some txn
      → Ends (Pushed name txn d) (savepoint_with e name d o)
  savepoint_with-Pushed name txn d none h = tt
  savepoint_with-Pushed name txn d (some files) h =
      subst
        (λ a. Ends (Pushed name txn d) (elim a [
          | none ↦ failed no_transaction d
          | some t ↦ message (push_savepoint e name d files t)
        ]))
        (sym h)
        (
          record {
            name = name;
            catalog_snapshot = snapshot d.catalog;
            file_snapshot = files;
            rewrite_backups = txn.rewrite_backups;
          },
          refl,
          refl,
          refl,
          refl,
        )

  pub handle_savepoint-Pushed :
      (name : String) (txn : Transaction e) (d : Db e)
      → d.active_txn ≡ some txn
      → Ends (Pushed name txn d) (handle_savepoint e name d)
  unfolding handle_savepoint
  handle_savepoint-Pushed name txn d h =
      savepoint_with-Pushed name txn d (snapshot_files e d.disk (keys d.catalog.tables)) h

  -- What ROLLBACK TO leaves: the catalog of the savepoint, and a transaction whose own snapshot is
  -- that catalog too.
  abbrev pub Returned : Catalog → List (Savepoint e) → Db e → Type 0
  Returned c sps d =
      (txn : Transaction e) × (d.active_txn ≡ some txn)
      × (d.catalog ≡ c)
      × (txn.savepoints ≡ sps)
      × (txn.catalog_snapshot ≡ snapshot c)
      × (txn.rewrite_backups ≡ [])

  retaken-Returned :
      (txn : Transaction e) (d : Db e) (c : Catalog) (o : Option (HashMap (List String)))
      → d.catalog ≡ c
      → Ends (Returned c txn.savepoints) (retaken e d o txn)
  retaken-Returned txn d c none h = tt
  retaken-Returned txn d c (some files) h = (
    record txn {
      catalog_snapshot = snapshot d.catalog;
      file_snapshot = files;
      rewrite_backups = [];
    },
    refl,
    h,
    refl,
    ap snapshot h,
    refl,
  )

  rollback_to_savepoint-Returned :
      (sp : Savepoint e) (txn : Transaction e) (d : Db e)
      → sp.rewrite_backups ≡ []
      → Ends
          (Returned (restore sp.catalog_snapshot d.catalog) txn.savepoints)
          (rollback_to_savepoint e sp txn d)
  unfolding rollback_to_savepoint drop_newer
  rollback_to_savepoint-Returned sp txn d h =
      let c = restore sp.catalog_snapshot d.catalog in
      let Back = Holds c (some txn) in
      let d0 = drop_newer e sp.file_snapshot (record d { active_txn = some txn }) in
      let d1 = record d0 { catalog = restore sp.catalog_snapshot d0.catalog } in
      Ends-bind Back (Returned c txn.savepoints) _ _
        (on_disk-Holds d1 (e.reload_tables d1.catalog d1.disk))
        λ d2 k2.
          Ends-bind Back (Returned c txn.savepoints) _ _
            (rw (no_backups sp.rewrite_backups d2 h) k2)
            λ d3 k3.
              retaken-Returned txn d3 c (snapshot_files e d3.disk (keys d3.catalog.tables)) k3.0

  -- The transaction's savepoints are `xs`, the one looked for, and `later` ones of other names.
  module _ (name : String) (txn : Transaction e) (d : Db e) (xs later : List (Savepoint e))
      (sp : Savepoint e) (active : d.active_txn ≡ some txn)
      (stack : txn.savepoints ≡ (xs ++ sp ∷ []) ++ later) (named : sp.name ≡ name)
      (others : OtherNames name later) where
    abbrev index : rposition e name txn.savepoints ≡ some (length xs)
    index = ap (rposition e name) stack ∙ rposition_last name xs later sp named others

    -- ROLLBACK TO goes on with the savepoint, and without the later ones.
    pub handle_rollback_to-Ends :
        (P : Db e → Type 0)
        → Ends P (rollback_to_savepoint e sp (cut e txn (length xs + 1)) d)
        → Ends P (handle_rollback_to e name d)
    unfolding handle_rollback_to
    handle_rollback_to-Ends P h =
        let short = cut e txn (length xs + 1) in
        let got : get_elem? txn.savepoints (length xs) ≡ some sp =
          ap (λ l. get_elem? l (length xs)) stack ∙ get_elem?-middle xs later sp in
        subst
          (λ a. Ends P (elim a [
            | none ↦ failed no_transaction d
            | some t ↦ rollback_to_index e name t d (rposition e name t.savepoints)
          ]))
          (sym active)
          (subst (λ o. Ends P (rollback_to_index e name txn d o)) (sym index)
            (subst
              (λ o. Ends P (elim o [
                | none ↦ failed (no_such_savepoint name) d
                | some s ↦ rollback_to_savepoint e s short d
              ]))
              (sym got) h))

    pub handle_rollback_to-Returned :
        sp.rewrite_backups ≡ []
        → Ends
            (Returned (restore sp.catalog_snapshot d.catalog) (xs ++ sp ∷ []))
            (handle_rollback_to e name d)
    handle_rollback_to-Returned h =
        let R = Returned (restore sp.catalog_snapshot d.catalog) in
        let short = cut e txn (length xs + 1) in
        let kept : short.savepoints ≡ xs ++ sp ∷ [] =
          ap (take (length xs + 1)) stack ∙ take-middle xs later sp in
        handle_rollback_to-Ends (R (xs ++ sp ∷ [])) (
          subst (λ l. Ends (R l) (rollback_to_savepoint e sp short d)) kept
            (rollback_to_savepoint-Returned sp short d h))

    -- RELEASE takes the savepoint and the later ones away, and nothing else.
    pub handle_release-eq :
        handle_release_savepoint e name d
        ≡ message (record d { active_txn = some (record txn { savepoints = xs }) })
    unfolding handle_release_savepoint
    handle_release-eq =
        let kept : take (length xs) txn.savepoints ≡ xs =
          ap (take (length xs)) stack ∙ take-front xs later sp in
        let done : release_index e name txn d (some (length xs))
            ≡ message (record d { active_txn = some (record txn { savepoints = xs }) }) =
          ap (λ l. message (record d { active_txn = some (record txn { savepoints = l }) })) kept in
        subst
          (λ a.
            (elim a [
              | none ↦ failed no_transaction d
              | some t ↦ release_index e name t d (rposition e name t.savepoints)
            ])
            ≡ message (record d { active_txn = some (record txn { savepoints = xs }) }))
          (sym active)
          (subst
            (λ o.
              release_index e name txn d o
              ≡ message (record d { active_txn = some (record txn { savepoints = xs }) }))
            (sym index) done)
