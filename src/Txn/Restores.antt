-- ===== src/Txn/Restores.antt =====
-- What ROLLBACK, SAVEPOINT and ROLLBACK TO restore.
use potatodb.Prelude.{
  ◌≡◌, refl, sym, ap, ◌∙◌, subst, String, Bool, if◌then◌else◌, true, false, Option, none, some,
  List, [], Option-cases, inl, inr,
}
use potatodb.Prelude.HashMap.{HashMap}
use potatodb.Catalog.Types.{TableMeta}
use potatodb.Catalog.State.{Catalog, CatalogSnapshot, snapshot, restore, set_in_transaction}
use potatodb.Catalog.Persistence.{force_save, write_to_store, Outcome}
use potatodb.Wal.File.{Wal, Io, abort, checkpoint}
use potatodb.Engine.Autocommit.{next_txn_id}
use potatodb.Txn.State.{
  Env, Db, Transaction, Savepoint, Reply, message, failed, no_transaction, ◌>>=◌,
}
use potatodb.Txn.Files.{keys, snapshot_files}
use potatodb.Txn.Control.{
  saved, save_catalog, on_disk, on_log, finish_log, set_wal, set_txn, new_txn, begin_with,
  handle_begin, rewrite_backups_of, drop_newer, rollback_txn, handle_rollback,
}

-- The catalog of a snapshot, outside transactions and with nothing to save.
abbrev pub after_rollback : CatalogSnapshot → Catalog → Catalog
after_rollback s c = record (restore s c) { in_transaction = false; dirty = false }

module _ {e : Env} where
  -- Where a statement returns a message, the state it leaves has the property.
  abbrev pub Ends : (Db e → Type 0) → Reply e → Type 0
  Ends P (message d) = P d
  Ends P (failed error d) = Unit {0}

  pub Ends-bind :
      (P Q : Db e → Type 0) (m : Reply e) (f : Db e → Reply e)
      → Ends P m
      → ((d : Db e) → P d → Ends Q (f d))
      → Ends Q (m >>= f)
  Ends-bind P Q (message d) f h k = k d h
  Ends-bind P Q (failed error d) f h k = tt

  pub Ends-message : (P : Db e → Type 0) (m : Reply e) {d : Db e} → Ends P m → m ≡ message d → P d
  Ends-message P m h q = subst (Ends P) q h

  -- The catalog and the transaction of a state.
  abbrev pub Holds : Catalog → Option (Transaction e) → Db e → Type 0
  Holds c txn d = (d.catalog ≡ c) × (d.active_txn ≡ txn)

  pub Ends-after :
      {c : Catalog} {txn : Option (Transaction e)} (d : Db e) (m : Reply e)
      → Holds c txn d
      → Ends (Holds d.catalog d.active_txn) m
      → Ends (Holds c txn) m
  Ends-after d (message d1) k h = (h.0 ∙ k.0, h.1 ∙ k.1)
  Ends-after d (failed error d1) k h = tt

  pub on_disk-Holds :
      (d : Db e) (r : e.Disk × Bool) → Ends (Holds d.catalog d.active_txn) (on_disk e d r)
  on_disk-Holds d (disk, true) = (refl, refl)
  on_disk-Holds d (disk, false) = tt

  -- What is kept when the log changes is kept by the end of a statement.
  module _ (P : Db e → Type 0)
      (log : (d : Db e) (w : Wal) → P d → P (record d { journal = set_wal d.journal w })) where
    on_log-keeps : (d : Db e) (r : Io (Unit {0})) → P d → Ends P (on_log e d r)
    on_log-keeps d (Io.ok u w) h = log d w h
    on_log-keeps d (Io.err w) h = tt

    checkpointed :
        (d : Db e) (o : Option Wal)
        → P d
        → Ends P
            (elim o [ none ↦ message d | some w1 ↦ on_log e d (checkpoint e.checkpoint_device w1) ])
    checkpointed d none h = h
    checkpointed d (some w) h = on_log-keeps d (checkpoint e.checkpoint_device w) h

    marked :
        (marker : Wal → Io (Unit {0})) (d : Db e) (o : Option Wal)
        → P d
        → Ends P (elim o [
          | none ↦ message d
          | some w ↦
              (on_log e d (marker w) >>= λ d1. elim d1.journal.wal [
                | none ↦ message d1
                | some w1 ↦ on_log e d1 (checkpoint e.checkpoint_device w1)
              ])
        ])
    marked marker d none h = h
    marked marker d (some w) h =
        Ends-bind P P (on_log e d (marker w)) _ (on_log-keeps d (marker w) h)
          λ d1 k. checkpointed d1 d1.journal.wal k

    pub finish_log-keeps :
        (marker : Wal → Io (Unit {0})) (d : Db e) → P d → Ends P (finish_log e marker d)
    unfolding finish_log
    finish_log-keeps marker d h = unless_replaying d.journal.replaying
      where
        unless_replaying :
            (replaying : Bool)
            → Ends P (
                if replaying then message d else elim d.journal.wal [
                  | none ↦ message d
                  | some w ↦
                      (on_log e d (marker w) >>= λ d1. elim d1.journal.wal [
                        | none ↦ message d1
                        | some w1 ↦ on_log e d1 (checkpoint e.checkpoint_device w1)
                      ])
                ])
        unless_replaying true = h
        unless_replaying false = marked marker d d.journal.wal h

  save_catalog-Holds :
      (d : Db e) → Ends (Holds (record d.catalog { dirty = false }) d.active_txn) (save_catalog e d)
  unfolding save_catalog force_save
  save_catalog-Holds d =
      go (write_to_store e.store e.json (record d.catalog { dirty = false }) d.objects)
    where
      go :
          (o : Outcome e.store.Objects)
          → Ends
              (Holds (record d.catalog { dirty = false }) d.active_txn)
              (saved e d (record d.catalog { dirty = false }, o))
      go (Outcome.ok objects) = (refl, refl)
      go Outcome.err = tt

  -- Without backups nothing is rewritten.
  pub no_backups :
      (backups : HashMap e.Batches) (d : Db e)
      → backups ≡ []
      → rewrite_backups_of e backups d ≡ message d
  unfolding rewrite_backups_of
  no_backups backups d h = rw h refl

  -- ROLLBACK of a transaction that rewrote no table puts its snapshot back.
  rollback_txn-Holds :
      (txn : Transaction e) (d : Db e)
      → txn.rewrite_backups ≡ []
      → Ends (Holds (after_rollback txn.catalog_snapshot d.catalog) none) (rollback_txn e txn d)
  unfolding rollback_txn drop_newer set_in_transaction restore
  rollback_txn-Holds txn d h =
      let c = after_rollback txn.catalog_snapshot d.catalog in
      let Restored = Holds c none in
      let d0 =
        drop_newer e txn.file_snapshot
          (record (set_txn e none none d) { catalog = set_in_transaction false d.catalog }) in
      Ends-bind Restored Restored _ _
        (save_catalog-Holds (record d0 { catalog = restore txn.catalog_snapshot d0.catalog }))
        λ d1 k1.
          Ends-bind Restored Restored _ _
            (Ends-after d1 _ k1 (on_disk-Holds d1 (e.reload_tables d1.catalog d1.disk)))
            λ d2 k2.
              Ends-bind Restored Restored _ _ (rw (no_backups txn.rewrite_backups d2 h) k2) λ d3 k3.
                finish_log-keeps Restored (λ d4 w h4. h4) (abort e.crc e.log_device txn.wal_txn_id)
                  d3 k3

  pub handle_rollback-Holds :
      (txn : Transaction e) (d : Db e)
      → d.active_txn ≡ some txn
      → txn.rewrite_backups ≡ []
      → Ends (Holds (after_rollback txn.catalog_snapshot d.catalog) none) (handle_rollback e d)
  unfolding handle_rollback
  handle_rollback-Holds txn d h k =
      subst
        (λ o.
          Ends (Holds (after_rollback txn.catalog_snapshot d.catalog) none)
            (elim o [ none ↦ failed no_transaction d | some t ↦ rollback_txn e t d ]))
        (sym h) (rollback_txn-Holds txn d k)

  -- What BEGIN puts down.
  abbrev pub Begun : Db e → Db e → Type 0
  Begun d d1 =
      (txn : Transaction e) × (d1.active_txn ≡ some txn)
      × (txn.catalog_snapshot ≡ snapshot d.catalog)
      × (txn.rewrite_backups ≡ [])

  handle_begin-Begun : (d : Db e) → Ends (Begun d) (handle_begin e d)
  unfolding handle_begin
  handle_begin-Begun d = elim (Option-cases d.active_txn) [
    | inl h ↦ rw (h, handle_begin) (go (snapshot_files e d.disk (keys d.catalog.tables)))
    | inr (txn, h) ↦ rw (h, handle_begin) tt
  ]
    where
      go : (o : Option (HashMap (List String))) → Ends (Begun d) (begin_with e d o)
      go none = tt
      go (some files) = (new_txn e d files (next_txn_id d.journal).0, refl, refl, refl)

-- BEGIN, and ROLLBACK of the transaction that it started: whatever was done to catalog, files and
-- log in between, savepoints and deferred deletions of tables included, unless a table was
-- rewritten or the transaction's snapshots were changed, the catalog is what it was at BEGIN, outside
-- any transaction and with nothing to save, and no transaction is active.
pub rollback-begin :
    (e : Env) (d d1 d2 d3 : Db e) (txn : Transaction e) (deletes : List TableMeta)
    (savepoints : List (Savepoint e))
    → handle_begin e d ≡ message d1
    → d1.active_txn ≡ some txn
    → d2.active_txn ≡ some (record txn { deferred_deletes = deletes; savepoints = savepoints })
    → handle_rollback e d2 ≡ message d3
    → (d3.catalog ≡ record d.catalog { in_transaction = false; dirty = false })
      × (d3.active_txn ≡ none)
unfolding restore snapshot
rollback-begin e d d1 d2 d3 txn deletes savepoints started active kept rolled =
    let (t, at, snap, none_yet) =
      Ends-message (Begun d) (handle_begin e d) (handle_begin-Begun d) started in
    let same : t ≡ txn = cc (at, active) in
    let t2 : Transaction e = record txn { deferred_deletes = deletes; savepoints = savepoints } in
    let (c, gone) =
      Ends-message (Holds (after_rollback t2.catalog_snapshot d2.catalog) none)
        (handle_rollback e d2)
        (handle_rollback-Holds t2 d2 kept (subst (λ u. u.rewrite_backups ≡ []) same none_yet))
        rolled in
    let snap2 : txn.catalog_snapshot ≡ snapshot d.catalog =
      subst (λ u. u.catalog_snapshot ≡ snapshot d.catalog) same snap in
    (c ∙ ap (λ s. after_rollback s d2.catalog) snap2, gone)
