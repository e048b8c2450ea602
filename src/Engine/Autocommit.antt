-- ===== src/Engine/Autocommit.antt =====
-- The engine's use of the log: `wal_append_pending`, `wal_finish_autocommit` and the log's part of
-- `handle_checkpoint` in crates/engine/src/lib.rs.
use potatodb.Prelude.{ℕ, ◌+◌, ◌-◌, ◌^◌, ◌<◌, ◌≡◌, ◌≢◌, ◌⊎◌, Bool, true, false, ◌||◌, arith, min}
use potatodb.Prelude.{Option, none, some, List, if◌then◌else◌}
use potatodb.Wal.Crc.{Hasher}
use potatodb.Wal.Entry.{pending}
use potatodb.Wal.File.{
  Device, Wal, Io, ok, err, append_no_sync, commit_no_checkpoint, checkpoint, maybe_checkpoint,
}
use potatodb.Engine.Policy.{should_checkpoint_autocommit}

-- The engine's fields that these functions read and write. `txn` is the active transaction's log id;
-- times are nanoseconds of the monotonic clock.
pub record Journal : Type 0 where
  pub wal : Option Wal
  pub txn : Option ℕ
  pub txn_counter : ℕ
  pub replaying : Bool
  pub threshold_bytes : ℕ
  pub every_commits : ℕ
  pub interval : ℕ
  pub commits_since_checkpoint : ℕ
  pub last_checkpoint_at : ℕ

-- The state afterwards, and whether an error was returned.
pub data Done : Type 0 where
  done : Journal → Done
  failed : Journal → Done

abbrev u64_max : ℕ
u64_max = 2 ^ 64 - 1

-- `x.saturating_add(1)` on `u64`
abbrev pub saturating_suc : ℕ → ℕ
saturating_suc n = min (n + 1) u64_max

unfoldable pub next_txn_id : Journal → ℕ × Journal
next_txn_id j = (j.txn_counter, record j { txn_counter = saturating_suc j.txn_counter })

abbrev pub current_wal_txn_id : Journal → ℕ
current_wal_txn_id j = elim j.txn [ none ↦ 0 | some id ↦ id ]

abbrev pub in_transaction : Journal → Bool
in_transaction j = elim j.txn [ none ↦ false | some id ↦ true ]

-- The log after an operation is stored back, on an error too.
abbrev store_wal : Journal → Wal → Journal
store_wal j w = record j { wal = some w }

abbrev pub finish {ℓ} : {A : Type ℓ} → Journal → Io A → Done
finish j (ok a w) = done (store_wal j w)
finish j (err w) = failed (store_wal j w)

-- After the commit marker: `now` is the clock, and `d` the device of the checkpoint.
unfoldable pub after_commit : Device → Bool → ℕ → Journal → Wal → Done
after_commit d force now j w =
    let commits = saturating_suc j.commits_since_checkpoint in
    let j' = record j { commits_since_checkpoint = commits } in
    if should_checkpoint_autocommit force commits j.every_commits (now - j.last_checkpoint_at)
      j.interval
    then elim (checkpoint d w) [
      | ok u w' ↦
          done (record j { wal = some w'; commits_since_checkpoint = 0; last_checkpoint_at = now })
      | err w' ↦ failed (record j' { wal = some w' })
    ]
    else finish j' (maybe_checkpoint d j.threshold_bytes w)

unfoldable pub after_marker : Device → Bool → ℕ → Journal → Io (Unit {0}) → Done
after_marker d force now j (ok u w) = after_commit d force now j w
after_marker d force now j (err w) = failed (store_wal j w)

module _ (crc : Hasher) where
  unfoldable pub wal_append_pending : Device → List ℕ → Journal → Done
  wal_append_pending d sql j = if j.replaying then done j else elim j.wal [
    | none ↦ done j
    | some w ↦ finish j (
        append_no_sync crc d (record { txn_id = current_wal_txn_id j; status = pending; sql = sql })
          w)
  ]

  -- `d1` and `d2` are the devices of the commit marker and of the checkpoint.
  unfoldable pub wal_finish_autocommit : Device → Device → Bool → ℕ → Journal → Done
  wal_finish_autocommit d1 d2 force now j =
      if j.replaying || in_transaction j then done j else elim j.wal [
        | none ↦ done j
        | some w ↦ after_marker d2 force now j (commit_no_checkpoint crc d1 0 w)
      ]

-- `handle_checkpoint`, without the Arrow log; the error before anything is done is that of an
-- explicit transaction.
unfoldable pub checkpoint_wal : Device → ℕ → Journal → Done
checkpoint_wal d now j = if in_transaction j then failed j else elim j.wal [
  | none ↦ done j
  | some w ↦ elim (checkpoint d w) [
    | ok u w' ↦
        done (record j { wal = some w'; commits_since_checkpoint = 0; last_checkpoint_at = now })
    | err w' ↦ failed (store_wal j w')
  ]
]

after_commit_bounds :
    (d : Device) (force : Bool) (now : ℕ) (j j' : Journal) (w : Wal)
    → j.every_commits ≢ 0
    → after_commit d force now j w ≡ done j'
    → (j'.commits_since_checkpoint < j.every_commits)
      × ((j.interval ≡ 0) ⊎ (now - j'.last_checkpoint_at < j.interval))
unfolding after_commit should_checkpoint_autocommit
after_commit_bounds d force now j j' w every h = ground arith

after_marker_bounds :
    (d : Device) (force : Bool) (now : ℕ) (j j' : Journal) (m : Io (Unit {0}))
    → j.every_commits ≢ 0
    → after_marker d force now j m ≡ done j'
    → (j'.commits_since_checkpoint < j.every_commits)
      × ((j.interval ≡ 0) ⊎ (now - j'.last_checkpoint_at < j.interval))
unfolding after_marker
after_marker_bounds d force now j j' (ok u w) every h =
    after_commit_bounds d force now j j' w every h
after_marker_bounds d force now j j' (err w) every h = cc

-- Where checkpoints by number of commits are enabled, a finished statement that touched the log
-- leaves fewer commits than that since the last checkpoint; where they are enabled by time, less
-- than the interval has passed since it.
pub wal_finish_autocommit_bounds :
    (crc : Hasher) (d1 d2 : Device) (force : Bool) (now : ℕ) (j j' : Journal) (w : Wal)
    → j.replaying ≡ false
    → j.txn ≡ none
    → j.wal ≡ some w
    → j.every_commits ≢ 0
    → wal_finish_autocommit crc d1 d2 force now j ≡ done j'
    → (j'.commits_since_checkpoint < j.every_commits)
      × ((j.interval ≡ 0) ⊎ (now - j'.last_checkpoint_at < j.interval))
unfolding wal_finish_autocommit
wal_finish_autocommit_bounds crc d1 d2 force now j j' w live auto log every h =
    after_marker_bounds d2 force now j j' (commit_no_checkpoint crc d1 0 w) every (ground arith)

-- Log ids of explicit transactions are never the auto-commit id 0, and each is greater than those
-- before it until the counter meets the greatest `u64`.
next_txn_id_lem :
    (j : Journal)
    → 0 < j.txn_counter
    → j.txn_counter < u64_max
    → ((next_txn_id j).0 ≢ 0)
      × ((next_txn_id j).0 < (next_txn_id (next_txn_id j).1).0)
      × (0 < (next_txn_id j).1.txn_counter)
unfolding next_txn_id
next_txn_id_lem j positive room = ground arith
