-- ===== src/Buffer/Recover.antt =====
-- What `PotatoDB::new` does with the rows of the Arrow log.
use potatodb.Prelude.{
  String, true, false, Option, none, some, List, [], ◌∷◌, is_empty, if◌then◌else◌,
}
use potatodb.Prelude.HashMap.{HashMap, get}
use potatodb.Arrow.Log.{Disk, recover}
use potatodb.Buffer.State.{Env, Db, Reply, done, failed, ◌>>=◌}
use potatodb.Buffer.Flush.{flush_table}
use potatodb.Buffer.Insert.{Moment, buffer_insert_batches}

module _ (e : Env) where
  open e use {ipc}

  -- The rows of a table that is in the catalog.
  abbrev pub replay_table : Moment → String → List ipc.Batch → Db e → Reply e (Unit {0})
  replay_table m table batches d = elim (get d.catalog.tables table) [
    | none ↦ done tt d
    | some meta ↦
        (buffer_insert_batches e m table none batches d >>= λ _ d1.
        flush_table e m.faults table d1 >>= λ _ d2. done tt d2)
  ]

  unfoldable pub replay_tables : Moment → HashMap (List ipc.Batch) → Db e → Reply e (Unit {0})
  unfolding buffer_insert_batches flush_table get
  replay_tables m [] d = done tt d
  replay_tables m ((table, batches) ∷ recovered) d =
      replay_table m table batches d >>= λ _ d1. replay_tables m recovered d1

  abbrev pub replay_recovered :
      Moment → Db e → Option (HashMap (List ipc.Batch)) → Reply e (Unit {0})
  replay_recovered m d none = failed d
  replay_recovered m d (some recovered) =
      if is_empty recovered
      then done tt d
      else (replay_tables m recovered (record d { replaying_wal = true }) >>= λ _ d1.
          done tt (record d1 { replaying_wal = false }))

  -- `dir` is the directory of the Arrow log.
  unfoldable pub recover_arrow : Moment → Disk → Db e → Reply e (Unit {0})
  unfolding replay_tables recover
  recover_arrow m dir d = replay_recovered m d (recover ipc dir)
