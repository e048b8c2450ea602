-- ===== src/Txn/Retained.antt =====
-- The files of tables after SAVEPOINT and ROLLBACK TO, in a store that lists and deletes reliably.
use potatodb.Prelude.{
  ◌≡◌, refl, sym, ap, ◌∙◌, subst, String, Bool, true, not, ◌&&◌, Option, none, some, List, [], ◌∷◌,
  ◌++◌, arith,
}
use potatodb.Prelude.HashMap.{HashMap}
use potatodb.Catalog.State.{restore, snapshot}
use potatodb.Txn.State.{Env, Db, Transaction, Savepoint, message, failed, no_transaction}
use potatodb.Txn.Files.{is_parquet, has_name, keys, snapshot_files}
use potatodb.Txn.Control.{drop_newer}
use potatodb.Txn.Savepoints.{
  push_savepoint, handle_savepoint, retaken, rollback_to_savepoint, handle_rollback_to,
}
use potatodb.Txn.Restores.{Ends, Ends-bind, Ends-message, no_backups}
use potatodb.Txn.Stack.{OtherNames, handle_rollback_to-Ends}
use potatodb.Txn.Cleanup.{Reliable, stored}
use potatodb.Txn.Leftovers.{
  doomed, stored-drop_newer, Left, on_disk-Left, listed, snapshot_files-listed, newer_at,
}

module _ {e : Env} (r : Reliable e) where
  rollback_to_savepoint-Left :
      (sp : Savepoint e) (txn : Transaction e) (d : Db e) (t f : String)
      → sp.rewrite_backups ≡ []
      → Ends
          (Left r t f (stored e r d.disk t f && not (doomed r sp.file_snapshot d f)))
          (rollback_to_savepoint e sp txn d)
  unfolding rollback_to_savepoint
  rollback_to_savepoint-Left sp txn d t f h =
      let v = stored e r d.disk t f && not (doomed r sp.file_snapshot d f) in
      let started = record d { active_txn = some txn } in
      let d0 = drop_newer e sp.file_snapshot started in
      let d1 = record d0 { catalog = restore sp.catalog_snapshot d0.catalog } in
      let L = Left r t f v in
      Ends-bind L L _ _
        (on_disk-Left r t f v d1 (e.reload_tables d1.catalog d1.disk) (
          ap (λ l. has_name l f) (r.files-reload d1.catalog d1.disk t)
          ∙ stored-drop_newer r sp.file_snapshot started t f))
        λ d2 k2.
          Ends-bind L L _ _ (rw (no_backups sp.rewrite_backups d2 h) k2)
            λ d3 k3. retaken-Left d3 (snapshot_files e d3.disk (keys d3.catalog.tables)) k3
    where
      retaken-Left :
          {v : Bool} (d3 : Db e) (o : Option (HashMap (List String)))
          → Left r t f v d3
          → Ends (Left r t f v) (retaken e d3 o txn)
      retaken-Left d3 none k = tt
      retaken-Left d3 (some files) k = k

  -- What SAVEPOINT pushes: the files that are listed then.
  abbrev Marked : String → Transaction e → Db e → Db e → Type 0
  Marked name txn d d1 =
      (sp : Savepoint e) × (d1.active_txn
        ≡ some (record txn { savepoints = txn.savepoints ++ sp ∷ [] }))
      × (sp.name ≡ name)
      × (sp.file_snapshot ≡ listed r d.disk (keys d.catalog.tables))
      × (sp.rewrite_backups ≡ txn.rewrite_backups)

  handle_savepoint-Marked :
      (name : String) (txn : Transaction e) (d : Db e)
      → d.active_txn ≡ some txn
      → Ends (Marked name txn d) (handle_savepoint e name d)
  unfolding handle_savepoint
  handle_savepoint-Marked name txn d h =
      rw (snapshot_files-listed r d.disk (keys d.catalog.tables)) (
        subst
          (λ a. Ends (Marked name txn d) (elim a [
            | none ↦ failed no_transaction d
            | some t ↦ message (push_savepoint e name d (listed r d.disk (keys d.catalog.tables)) t)
          ]))
          (sym h)
          (
            record {
              name = name;
              catalog_snapshot = snapshot d.catalog;
              file_snapshot = listed r d.disk (keys d.catalog.tables);
              rewrite_backups = txn.rewrite_backups;
            },
            refl,
            refl,
            refl,
            refl,
          ))

-- SAVEPOINT, then anything that leaves the transaction with later savepoints of other names on top
-- of it, then ROLLBACK TO, in a transaction that had rewritten no table at the savepoint, on a
-- reliable remote store: every Parquet file that is then in a table of the time of SAVEPOINT was in
-- that table at SAVEPOINT.
pub rollback_to-savepoint_no_new :
    (e : Env) (r : Reliable e) (name : String) (d d1 d2 d3 : Db e) (txn txn1 txn2 : Transaction e)
    (later : List (Savepoint e)) (t f : String)
    → d.active_txn ≡ some txn
    → txn.rewrite_backups ≡ []
    → handle_savepoint e name d ≡ message d1
    → d1.active_txn ≡ some txn1
    → d2.active_txn ≡ some txn2
    → txn2.savepoints ≡ txn1.savepoints ++ later
    → OtherNames name later
    → handle_rollback_to e name d2 ≡ message d3
    → has_name (keys d.catalog.tables) t ≡ true
    → is_parquet f ≡ true
    → stored e r d3.disk t f ≡ true
    → stored e r d.disk t f ≡ true
rollback_to-savepoint_no_new e r name d d1 d2 d3 txn txn1 txn2 later t f active fresh set at1 at2
      more others back known p now =
    let (sp, at, named, files, backups) =
      Ends-message (Marked r name txn d) (handle_savepoint e name d)
        (handle_savepoint-Marked r name txn d active) set in
    let same : record txn { savepoints = txn.savepoints ++ sp ∷ [] } ≡ txn1 = cc (at, at1) in
    let stack : txn2.savepoints ≡ (txn.savepoints ++ sp ∷ []) ++ later =
      more ∙ ap (λ l. l.savepoints ++ later) (sym same) in
    let v = λ (s : HashMap (List String)). stored e r d2.disk t f && not (doomed r s d2 f) in
    let left : stored e r d3.disk t f ≡ v sp.file_snapshot =
      Ends-message (Left r t f (v sp.file_snapshot)) (handle_rollback_to e name d2)
        (handle_rollback_to-Ends name txn2 d2 txn.savepoints later sp at2 stack named others
          (Left r t f (v sp.file_snapshot))
          (rollback_to_savepoint-Left r sp _ d2 t f (backups ∙ fresh)))
        back in
    let left1 : stored e r d3.disk t f ≡ v (listed r d.disk (keys d.catalog.tables)) =
      left ∙ ap v files in
    newer_at r d.disk d2.disk (keys d.catalog.tables) t f known p (ground (arith, left1, now))
      (ground (arith, left1, now))
