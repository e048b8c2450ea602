-- ===== src/Tests/Transactions.antt =====
-- Transactions over a store in memory, whose files are all those of one table.
use potatodb.Prelude.Bytes.{to_le_bytes}
use potatodb.Prelude.{
  ◌≡◌, refl, String, true, false, not, ◌&&◌, none, some, List, [], ◌∷◌, filter, str_eq,
}
use potatodb.Catalog.State.{Catalog, CatalogData, saved_data, snapshot, restore, set_in_transaction}
use potatodb.Catalog.Persistence.{found, not_found, write_to_store}
use potatodb.Wal.File.{abort, append, flush, sync_data, checkpoint, put_bytes}
use potatodb.Txn.State.{Env, Db, Transaction, Savepoint}
use potatodb.Txn.Control.{handle_begin, handle_rollback}
use potatodb.Txn.Savepoints.{handle_savepoint, handle_rollback_to}
use potatodb.Txn.Restores.{rollback-begin}
use potatodb.Txn.Partial.{rollback_to-savepoint, rollback-rollback_to}
use potatodb.Txn.Files.{has_name, is_parquet, keys}
use potatodb.Txn.Retained.{rollback_to-savepoint_no_new}
use potatodb.Txn.Cleanup.{Reliable, stored}
use potatodb.Txn.Leftovers.{doomed, listed, rollback-begin_files}
use potatodb.Tests.Hasher.{sum_hasher, sound}
use potatodb.Tests.Metadata.{small, users_table, memory, plain_json}
use potatodb.Tests.Rights.{engine}

abbrev env : Env
env = record {
  Bytes = CatalogData;
  store = memory;
  json = plain_json;
  crc = sum_hasher;
  log_device = sound;
  checkpoint_device = sound;
  Disk = List String;
  Batches = Unit {0};
  is_local_disk = false;
  list_objects = λ d t. some d;
  delete_object = λ d f. some (filter (λ x. not (str_eq x f)) d);
  remove_dir = λ d p. some [];
  flush_all = λ c d. (c, d, true);
  reload_tables = λ c d. (d, true);
  rewrite_table = λ t cs b c d. (c, d, true);
}

abbrev start : Db env
start = record {
  catalog = small;
  objects = not_found;
  disk = "a.parquet" ∷ [];
  journal = engine;
  active_txn = none;
}

abbrev started : Transaction env
started = record {
  catalog_snapshot = snapshot small;
  file_snapshot = ("users", "a.parquet" ∷ []) ∷ [];
  deferred_deletes = [];
  wal_txn_id = 1;
  rewrite_backups = [];
  savepoints = [];
}

-- After BEGIN.
abbrev begun : Db env
begun = record start {
  catalog = set_in_transaction true small;
  journal = record engine { txn = some 1; txn_counter = 2 };
  active_txn = some started;
}

-- The table was dropped and a file written.
abbrev dropped : Transaction env → Db env
dropped txn = record begun {
  catalog = record begun.catalog { tables = []; indexes = [] };
  disk = "b.parquet" ∷ "a.parquet" ∷ [];
  active_txn = some txn;
}

-- After ROLLBACK.
abbrev undone : Db env
undone = record start {
  catalog = record small { dirty = false };
  objects = found (saved_data (record small { dirty = false }));
  journal = record engine {
    wal = some (record { file = []; buffer = []; cursor = some 0 });
    txn_counter = 2;
  };
}

rollback-begin_example :
    (undone.catalog ≡ record small { in_transaction = false; dirty = false })
    × (undone.active_txn ≡ none)
unfolding write_to_store abort append flush sync_data checkpoint snapshot put_bytes to_le_bytes
rollback-begin_example =
    rollback-begin env start begun
      (dropped (record started { deferred_deletes = users_table ∷ [] })) undone started
      (users_table ∷ []) [] (unfold handle_begin in refl) refl refl (unfold handle_rollback in refl)

abbrev point : String → Catalog → Savepoint env
point name c = record {
  name = name;
  catalog_snapshot = snapshot c;
  file_snapshot = ("users", "a.parquet" ∷ []) ∷ [];
  rewrite_backups = [];
}

-- After SAVEPOINT a, and after SAVEPOINT b too.
abbrev one_point : Transaction env
one_point = record started { savepoints = point "a" begun.catalog ∷ [] }

abbrev two_points : Transaction env
two_points = record started { savepoints = point "a" begun.catalog ∷ point "b" begun.catalog ∷ [] }

abbrev marked : Db env
marked = record begun { active_txn = some one_point }

abbrev returned : Transaction env
returned = record one_point { catalog_snapshot = snapshot begun.catalog }

rollback_to-savepoint_example :
    (begun.catalog ≡ restore (snapshot begun.catalog) (dropped two_points).catalog)
    × (txn3 : Transaction env) × (some returned ≡ some txn3)
    × (txn3.savepoints ≡ one_point.savepoints)
    × (txn3.catalog_snapshot ≡ snapshot begun.catalog)
    × (txn3.rewrite_backups ≡ [])
unfolding restore set_in_transaction
rollback_to-savepoint_example =
    rollback_to-savepoint env "a" begun marked (dropped two_points)
      (record begun { active_txn = some returned }) started one_point two_points
      (point "b" begun.catalog ∷ []) refl refl (unfold handle_savepoint in refl) refl refl refl
      (refl, tt) (unfold handle_rollback_to in refl)

-- The table was dropped before SAVEPOINT: it stays dropped after ROLLBACK TO and ROLLBACK.
abbrev late : Savepoint env
late = record (point "a" (dropped started).catalog) { file_snapshot = [] }

abbrev lost : Db env
lost = record undone {
  catalog = record small { tables = []; indexes = []; dirty = false };
  objects = found (saved_data (record small { tables = []; indexes = []; dirty = false }));
  disk = "b.parquet" ∷ "a.parquet" ∷ [];
}

rollback-rollback_to_example :
    (lost.catalog ≡ record (dropped started).catalog { in_transaction = false; dirty = false })
    × (lost.active_txn ≡ none)
unfolding write_to_store abort append flush sync_data checkpoint snapshot put_bytes to_le_bytes
rollback-rollback_to_example =
    let txn : Transaction env = record started { savepoints = late ∷ [] } in
    rollback-rollback_to env "a" (dropped started) (dropped txn) (dropped txn)
      (dropped (record txn { catalog_snapshot = late.catalog_snapshot; file_snapshot = [] })) lost
      started txn txn [] refl refl (unfold handle_savepoint in refl) refl refl refl tt
      (unfold handle_rollback_to in refl) (unfold handle_rollback in refl)

abbrev reliable : Reliable env
reliable = record {
  files = λ d t. d;
  removed = λ d f. filter (λ x. not (str_eq x f)) d;
  list-files = λ d t. refl;
  delete-removed = λ d f. refl;
  files-removed = λ d f t. refl;
  files-reload = λ c d t. refl;
  is_remote = refl;
}

abbrev at_rollback : Db env
at_rollback = dropped (record started { deferred_deletes = users_table ∷ [] })

rollback-begin_files_example : stored env reliable undone.disk "users" "b.parquet" ≡ (
    stored env reliable at_rollback.disk "users" "b.parquet"
    && not (
        doomed reliable
          (listed reliable start.disk (keys start.catalog.tables))
          at_rollback
          "b.parquet"))
unfolding write_to_store abort append flush sync_data checkpoint snapshot put_bytes to_le_bytes
rollback-begin_files_example =
    rollback-begin_files env reliable start begun at_rollback undone started (users_table ∷ []) []
      "users" "b.parquet" (unfold handle_begin in refl) refl refl (unfold handle_rollback in refl)

rollback_to-savepoint_no_new_example : stored env reliable begun.disk "users" "a.parquet" ≡ true
unfolding restore set_in_transaction
rollback_to-savepoint_no_new_example =
    rollback_to-savepoint_no_new env reliable "a" begun marked (dropped two_points)
      (record begun { active_txn = some returned }) started one_point two_points
      (point "b" begun.catalog ∷ []) "users" "a.parquet" refl refl (unfold handle_savepoint in refl)
      refl refl refl (refl, tt) (unfold handle_rollback_to in refl) (unfold has_name in refl)
      (unfold is_parquet in refl) (unfold has_name in refl)
