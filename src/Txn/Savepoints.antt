-- ===== src/Txn/Savepoints.antt =====
-- `handle_savepoint`, `handle_rollback_to` and `handle_release_savepoint`.
use potatodb.Prelude.{
  ℕ, ◌+◌, String, Option, none, some, List, [], ◌∷◌, ◌++◌, take, get_elem?, if◌then◌else◌, str_eq,
}
use potatodb.Prelude.HashMap.{HashMap}
use potatodb.Catalog.State.{snapshot, restore}
use potatodb.Txn.State.{
  Env, Db, Transaction, Savepoint, Reply, message, failed, no_transaction, no_such_savepoint, io,
  ◌>>=◌,
}
use potatodb.Txn.Files.{keys, snapshot_files}
use potatodb.Txn.Control.{on_disk, drop_newer, rewrite_backups_of}

module _ (e : Env) where
  -- `iter().rposition(|sp| sp.name == name)`
  unfoldable pub rposition : String → List (Savepoint e) → Option ℕ
  rposition name [] = none
  rposition name (sp ∷ sps) = elim (rposition name sps) [
    | some i ↦ some (i + 1)
    | none ↦ if str_eq sp.name name then some 0 else none
  ]

  abbrev pub push_savepoint : String → Db e → HashMap (List String) → Transaction e → Db e
  push_savepoint name d files txn = record d {
    active_txn = some (record txn {
      savepoints =
          txn.savepoints
          ++ (record {
            name = name;
            catalog_snapshot = snapshot d.catalog;
            file_snapshot = files;
            rewrite_backups = txn.rewrite_backups;
          })
            ∷ [];
    });
  }

  abbrev pub savepoint_with : String → Db e → Option (HashMap (List String)) → Reply e
  savepoint_with name d none = failed io d
  savepoint_with name d (some files) = elim d.active_txn [
    | none ↦ failed no_transaction d
    | some txn ↦ message (push_savepoint name d files txn)
  ]

  unfoldable pub handle_savepoint : String → Db e → Reply e
  unfolding snapshot snapshot_files
  handle_savepoint name d = savepoint_with name d (snapshot_files e d.disk (keys d.catalog.tables))

  -- The end of `handle_rollback_to`: the transaction's own snapshots are taken anew.
  abbrev pub retaken : Db e → Option (HashMap (List String)) → Transaction e → Reply e
  retaken d none txn = failed io d
  retaken d (some files) txn = message (record d {
    active_txn = some (record txn {
      catalog_snapshot = snapshot d.catalog;
      file_snapshot = files;
      rewrite_backups = [];
    });
  })

  abbrev pub retake : Transaction e → Db e → Reply e
  retake txn d = retaken d (snapshot_files e d.disk (keys d.catalog.tables)) txn

  -- Rolling back to a savepoint of the transaction `txn`, whose later savepoints were cut.
  unfoldable pub rollback_to_savepoint : Savepoint e → Transaction e → Db e → Reply e
  unfolding drop_newer restore rewrite_backups_of snapshot snapshot_files
  rollback_to_savepoint sp txn d = do
    let d0 = drop_newer e sp.file_snapshot (record d { active_txn = some txn })
    let d1 = record d0 { catalog = restore sp.catalog_snapshot d0.catalog }
    d2 ← on_disk e d1 (e.reload_tables d1.catalog d1.disk)
    d3 ← rewrite_backups_of e sp.rewrite_backups d2
    retake txn d3

  abbrev pub cut : Transaction e → ℕ → Transaction e
  cut txn n = record txn { savepoints = take n txn.savepoints }

  abbrev pub rollback_to_index : String → Transaction e → Db e → Option ℕ → Reply e
  rollback_to_index name txn d none = failed (no_such_savepoint name) d
  rollback_to_index name txn d (some idx) = elim (get_elem? txn.savepoints idx) [
    | none ↦ failed (no_such_savepoint name) d
    | some sp ↦ rollback_to_savepoint sp (cut txn (idx + 1)) d
  ]

  unfoldable pub handle_rollback_to : String → Db e → Reply e
  unfolding rollback_to_savepoint rposition
  handle_rollback_to name d = elim d.active_txn [
    | none ↦ failed no_transaction d
    | some txn ↦ rollback_to_index name txn d (rposition name txn.savepoints)
  ]

  abbrev pub release_index : String → Transaction e → Db e → Option ℕ → Reply e
  release_index name txn d none = failed (no_such_savepoint name) d
  release_index name txn d (some idx) = message (record d { active_txn = some (cut txn idx) })

  unfoldable pub handle_release_savepoint : String → Db e → Reply e
  unfolding rposition
  handle_release_savepoint name d = elim d.active_txn [
    | none ↦ failed no_transaction d
    | some txn ↦ release_index name txn d (rposition name txn.savepoints)
  ]
