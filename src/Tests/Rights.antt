-- ===== src/Tests/Rights.antt =====
-- crates/engine: access checks, grants and auto-commit at small inputs.
use potatodb.Prelude.{◌-◌, ◌≡◌, ◌≢◌, ◌<◌, ◌⊎◌, ◌↔◌, refl, arith, true, false, none, some}
use potatodb.Prelude.{[], ◌∷◌}
use potatodb.Prelude.HashMap.{get}
use potatodb.Catalog.Types.{Privilege, RoleDef}
use potatodb.Catalog.State.{Catalog}
use potatodb.Engine.Policy.{should_checkpoint_autocommit}
use potatodb.Engine.Access.{
  Holds, IsAdmin, IsQuery, IsGlobal, Session, user_has_privilege, enforce_access,
  enforce_access_iff,
}
use potatodb.Engine.Grants.{handle_grant, session_of, handle_grant_allows}
use potatodb.Engine.Autocommit.{
  Journal, done, wal_finish_autocommit, wal_finish_autocommit_bounds, after_commit, after_marker,
}
use potatodb.Wal.File.{
  Wal, append, write_entry, commit_no_checkpoint, flush, sync_data, put_bytes, checkpoint,
}
use potatodb.Wal.Entry.{encode_entry}
use potatodb.Prelude.Bytes.{to_le_bytes}
use potatodb.Tests.Hasher.{sum_hasher, sum_bytes, sound}

abbrev select_users : Privilege
select_users = record { kind = "SELECT"; table = some "users" }

abbrev readers_role : RoleDef
readers_role = record { name = "readers"; privileges = select_users ∷ [] }

abbrev reader : Session
reader = record {
  current_user = "ann";
  user_roles = ("ann", "readers" ∷ []) ∷ [];
  roles = ("readers", readers_role) ∷ [];
}

enforce_access_iff_example : (enforce_access reader "WITH" ≡ true) ↔ (
    Holds reader IsAdmin
    ⊎ ((IsQuery "WITH" × Holds reader (IsGlobal "SELECT"))
        ⊎ ((¬ (IsQuery "WITH")) × Holds reader (IsGlobal "WITH"))))
enforce_access_iff_example = enforce_access_iff reader "WITH"

abbrev accounts : Catalog
accounts = record {
  tables = [];
  indexes = [];
  views = [];
  sequences = [];
  udfs = [];
  users = ("ann", record { name = "ann"; password = "" }) ∷ [];
  roles = [];
  user_roles = [];
  triggers = [];
  schema_version = 0;
  migrations = [];
  in_transaction = false;
  dirty = false;
}

ann_known : get accounts.users "ann" ≢ none
unfolding get
ann_known e = cc

handle_grant_allows_example :
    user_has_privilege
      (session_of "ann" (handle_grant "SELECT" "users" "ann" accounts))
      "SELECT"
      (some "users")
    ≡ true
handle_grant_allows_example = handle_grant_allows "SELECT" "users" "ann" accounts ann_known

abbrev empty_log : Wal
empty_log = record { file = []; buffer = []; cursor = none }

abbrev pub engine : Journal
engine = record {
  wal = some empty_log;
  txn = none;
  txn_counter = 1;
  replaying = false;
  threshold_bytes = 1024;
  every_commits = 1;
  interval = 50;
  commits_since_checkpoint = 0;
  last_checkpoint_at = 0;
}

abbrev checkpointed : Journal
checkpointed = record engine {
  wal = some (record { file = []; buffer = []; cursor = some 0 });
  last_checkpoint_at = 30;
}

finish_run : wal_finish_autocommit sum_hasher sound sound false 30 engine ≡ done checkpointed
unfolding wal_finish_autocommit after_marker after_commit should_checkpoint_autocommit
    commit_no_checkpoint append write_entry flush sync_data put_bytes checkpoint encode_entry
    to_le_bytes sum_bytes
finish_run = refl

wal_finish_autocommit_bounds_example :
    (checkpointed.commits_since_checkpoint < engine.every_commits)
    × ((engine.interval ≡ 0) ⊎ (30 - checkpointed.last_checkpoint_at < engine.interval))
wal_finish_autocommit_bounds_example =
    wal_finish_autocommit_bounds sum_hasher sound sound false 30 engine checkpointed empty_log refl
      refl refl (omega arith) finish_run
