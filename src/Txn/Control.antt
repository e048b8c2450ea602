-- ===== src/Txn/Control.antt =====
-- `handle_begin`, `handle_commit` and `handle_rollback`.
use potatodb.Prelude.{
  ℕ, String, Bool, true, false, Option, none, some, List, [], ◌∷◌, if◌then◌else◌,
}
use potatodb.Prelude.HashMap.{HashMap, get}
use potatodb.Catalog.State.{Catalog, snapshot, restore, set_in_transaction}
use potatodb.Catalog.Persistence.{force_save, Outcome}
use potatodb.Wal.File.{Wal, Io, commit, abort, checkpoint}
use potatodb.Engine.Autocommit.{Journal, next_txn_id}
use potatodb.Txn.State.{
  Env, Db, Transaction, Reply, message, failed, nested_begin, no_transaction, io, ◌>>=◌,
}
use potatodb.Txn.Files.{keys, snapshot_files, delete_new_files, delete_new_tables, delete_deferred}

abbrev pub set_wal : Journal → Wal → Journal
set_wal j w = record j { wal = some w }

module _ (e : Env) where
  -- `catalog.force_save().await?`
  abbrev pub saved : Db e → Catalog × Outcome e.store.Objects → Reply e
  saved d (c, Outcome.ok objects) = message (record d { catalog = c; objects = objects })
  saved d (c, Outcome.err) = failed io (record d { catalog = c })

  unfoldable pub save_catalog : Db e → Reply e
  unfolding force_save
  save_catalog d = saved d (force_save e.store e.json d.catalog d.objects)

  -- A step that works on the disk, or on the catalog too, and may fail.
  abbrev pub on_disk : Db e → e.Disk × Bool → Reply e
  on_disk d (disk, true) = message (record d { disk = disk })
  on_disk d (disk, false) = failed io (record d { disk = disk })

  abbrev pub on_tables : Db e → Catalog × e.Disk × Bool → Reply e
  on_tables d (c, disk, true) = message (record d { catalog = c; disk = disk })
  on_tables d (c, disk, false) = failed io (record d { catalog = c; disk = disk })

  abbrev pub on_log : Db e → Io (Unit {0}) → Reply e
  on_log d (Io.ok u w) = message (record d { journal = set_wal d.journal w })
  on_log d (Io.err w) = failed io (record d { journal = set_wal d.journal w })

  -- The marker is written and the log checkpointed, where there is a log and it is not replayed.
  unfoldable pub finish_log : (Wal → Io (Unit {0})) → Db e → Reply e
  finish_log marker d = if d.journal.replaying then message d else elim d.journal.wal [
    | none ↦ message d
    | some w ↦
        (on_log d (marker w) >>= λ d1. elim d1.journal.wal [
          | none ↦ message d1
          | some w1 ↦ on_log d1 (checkpoint e.checkpoint_device w1)
        ])
  ]

  abbrev pub set_txn : Option (Transaction e) → Option ℕ → Db e → Db e
  set_txn txn id d = record d { active_txn = txn; journal = record d.journal { txn = id } }

  abbrev pub new_txn : Db e → HashMap (List String) → ℕ → Transaction e
  new_txn d files id = record {
    catalog_snapshot = snapshot d.catalog;
    file_snapshot = files;
    deferred_deletes = [];
    wal_txn_id = id;
    rewrite_backups = [];
    savepoints = [];
  }

  abbrev pub begun : Db e → HashMap (List String) → Db e
  begun d files =
      let (id, journal) = next_txn_id d.journal in
      record d {
        catalog = set_in_transaction true d.catalog;
        journal = record journal { txn = some id };
        active_txn = some (new_txn d files id);
      }

  abbrev pub begin_with : Db e → Option (HashMap (List String)) → Reply e
  begin_with d none = failed io d
  begin_with d (some files) = message (begun d files)

  unfoldable pub handle_begin : Db e → Reply e
  unfolding snapshot set_in_transaction next_txn_id snapshot_files
  handle_begin d = elim d.active_txn [
    | some txn ↦ failed nested_begin d
    | none ↦ begin_with d (snapshot_files e d.disk (keys d.catalog.tables))
  ]

  -- The rest of `handle_commit` once the transaction was taken.
  unfoldable pub commit_txn : Transaction e → Db e → Reply e
  unfolding save_catalog delete_deferred finish_log set_in_transaction
  commit_txn txn d = do
    d1 ←
        save_catalog (record (set_txn none none d) { catalog = set_in_transaction false d.catalog })
    d2 ← on_disk d1 (delete_deferred e txn.deferred_deletes d1.disk)
    finish_log (commit e.crc e.log_device txn.wal_txn_id) d2

  -- `capture_snapshot` is left out: its result is ignored, and it changes none of these fields.
  unfoldable pub handle_commit : Db e → Reply e
  unfolding commit_txn
  handle_commit d = on_tables d (e.flush_all d.catalog d.disk) >>= λ d1. elim d1.active_txn [
    | none ↦ failed no_transaction d1
    | some txn ↦ commit_txn txn d1
  ]

  -- The backups of rewritten tables that are still in the catalog are written back.
  unfoldable pub rewrite_backups_of : HashMap e.Batches → Db e → Reply e
  rewrite_backups_of [] d = message d
  rewrite_backups_of ((table, batches) ∷ backups) d = elim (get d.catalog.tables table) [
    | none ↦ rewrite_backups_of backups d
    | some meta ↦
        (on_tables d (e.rewrite_table table meta.columns batches d.catalog d.disk)
          >>= rewrite_backups_of backups)
  ]

  -- Files and tables that are newer than the snapshot go away; errors are ignored.
  unfoldable pub drop_newer : HashMap (List String) → Db e → Db e
  unfolding delete_new_files delete_new_tables
  drop_newer files d = record d {
    disk = delete_new_tables e files d.catalog.tables (delete_new_files e files d.disk);
  }

  unfoldable pub rollback_txn : Transaction e → Db e → Reply e
  unfolding drop_newer restore save_catalog rewrite_backups_of finish_log set_in_transaction
  rollback_txn txn d = do
    let d0 =
        drop_newer txn.file_snapshot
          (record (set_txn none none d) { catalog = set_in_transaction false d.catalog })
    d1 ← save_catalog (record d0 { catalog = restore txn.catalog_snapshot d0.catalog })
    d2 ← on_disk d1 (e.reload_tables d1.catalog d1.disk)
    d3 ← rewrite_backups_of txn.rewrite_backups d2
    finish_log (abort e.crc e.log_device txn.wal_txn_id) d3

  unfoldable pub handle_rollback : Db e → Reply e
  unfolding rollback_txn
  handle_rollback d = elim d.active_txn [
    | none ↦ failed no_transaction d
    | some txn ↦ rollback_txn txn d
  ]
