-- ===== src/Txn/Leftovers.antt =====
-- The files of tables after BEGIN and ROLLBACK, in a store that lists and deletes reliably.
use potatodb.Prelude.{
  ◌≡◌, refl, sym, ap, ◌∙◌, subst, String, Bool, true, false, not, ◌||◌, ◌&&◌, Option, none, some,
  List, [], ◌∷◌, filter, str_eq, arith, Bool-cases, inl, inr,
}
use potatodb.Prelude.HashMap.{HashMap}
use potatodb.Catalog.Types.{TableMeta}
use potatodb.Catalog.State.{Catalog, restore, set_in_transaction}
use potatodb.Catalog.Persistence.{force_save, write_to_store, Outcome}
use potatodb.Wal.File.{abort}
use potatodb.Engine.Autocommit.{next_txn_id}
use potatodb.Txn.State.{
  Env, Db, Transaction, Savepoint, message, failed, nested_begin, no_transaction,
}
use potatodb.Txn.Files.{
  is_parquet, has_name, keys, list_parquet_files, snapshot_files, delete_new_files,
}
use potatodb.Txn.Control.{
  saved, save_catalog, on_disk, set_txn, new_txn, begin_with, handle_begin, drop_newer,
  rollback_txn, handle_rollback,
}
use potatodb.Txn.Restores.{Ends, Ends-bind, Ends-message, no_backups, finish_log-keeps}
use potatodb.Txn.Cleanup.{
  Reliable, stored, newer, unknown, swept, unknown-Same, stored-delete_new_files,
  stored-delete_new_tables, has_name-filter, same_test,
}

module _ {e : Env} (r : Reliable e) where
  -- What ROLLBACK deletes: newer files of the snapshot's tables, and the files of newer tables.
  abbrev pub doomed : HashMap (List String) → Db e → String → Bool
  doomed snapshot d f =
      newer e r snapshot d.disk f || unknown e r snapshot d.catalog.tables d.disk f

  pub stored-drop_newer :
      (snapshot : HashMap (List String)) (d : Db e) (t f : String)
      → stored e r (drop_newer e snapshot d).disk t f
        ≡ (stored e r d.disk t f && not (doomed snapshot d f))
  unfolding drop_newer
  stored-drop_newer snapshot d t f =
      let d1 = delete_new_files e snapshot d.disk in
      swept e r (λ x. unknown e r snapshot d.catalog.tables x f) d.disk d1 _ t f
        (newer e r snapshot d.disk f) (λ u. stored-delete_new_files e r snapshot d.disk u f)
        (unknown-Same e r snapshot d.catalog.tables d1 d.disk f)
        (stored-delete_new_tables e r snapshot d.catalog.tables d1 t f)

  module _ (t f : String) (v : Bool) where
    abbrev pub Left : Db e → Type 0
    Left d = stored e r d.disk t f ≡ v

    saved-Left :
        (d : Db e) (c : Catalog) (o : Outcome e.store.Objects)
        → Left d
        → Ends Left (saved e d (c, o))
    saved-Left d c (Outcome.ok objects) h = h
    saved-Left d c Outcome.err h = tt

    save_catalog-Left : (d : Db e) → Left d → Ends Left (save_catalog e d)
    unfolding save_catalog force_save
    save_catalog-Left d h =
        saved-Left d (record d.catalog { dirty = false })
          (write_to_store e.store e.json (record d.catalog { dirty = false }) d.objects) h

    pub on_disk-Left :
        (d : Db e) (x : e.Disk × Bool) → stored e r x.0 t f ≡ v → Ends Left (on_disk e d x)
    on_disk-Left d (disk, true) h = h
    on_disk-Left d (disk, false) h = tt

  rollback_txn-Left :
      (txn : Transaction e) (d : Db e) (t f : String)
      → txn.rewrite_backups ≡ []
      → Ends
          (Left t f (stored e r d.disk t f && not (doomed txn.file_snapshot d f)))
          (rollback_txn e txn d)
  unfolding rollback_txn set_in_transaction
  rollback_txn-Left txn d t f h =
      let v = stored e r d.disk t f && not (doomed txn.file_snapshot d f) in
      let started = record (set_txn e none none d) {
        catalog = set_in_transaction false d.catalog;
      } in
      let d0 = drop_newer e txn.file_snapshot started in
      let L = Left t f v in
      Ends-bind L L _ _
        (save_catalog-Left t f v (record d0 { catalog = restore txn.catalog_snapshot d0.catalog })
          (stored-drop_newer txn.file_snapshot started t f))
        λ d1 k1.
          Ends-bind L L _ _
            (on_disk-Left t f v d1 (e.reload_tables d1.catalog d1.disk)
              (ap (λ l. has_name l f) (r.files-reload d1.catalog d1.disk t) ∙ k1))
            λ d2 k2. Ends-bind L L _ _ (rw (no_backups txn.rewrite_backups d2 h) k2) λ d3 k3.
              finish_log-keeps L (λ d4 w h4. h4) (abort e.crc e.log_device txn.wal_txn_id) d3 k3

  handle_rollback-Left :
      (txn : Transaction e) (d : Db e) (t f : String)
      → d.active_txn ≡ some txn
      → txn.rewrite_backups ≡ []
      → Ends
          (Left t f (stored e r d.disk t f && not (doomed txn.file_snapshot d f)))
          (handle_rollback e d)
  unfolding handle_rollback
  handle_rollback-Left txn d t f active none_yet =
      subst
        (λ o.
          Ends (Left t f (stored e r d.disk t f && not (doomed txn.file_snapshot d f)))
            (elim o [ none ↦ failed no_transaction d | some x ↦ rollback_txn e x d ]))
        (sym active) (rollback_txn-Left txn d t f none_yet)

  -- The Parquet files of tables, as BEGIN lists them.
  unfoldable pub listed : e.Disk → List String → HashMap (List String)
  unfolding is_parquet
  listed d [] = []
  listed d (table ∷ tables) = (table, filter is_parquet (r.files d table)) ∷ listed d tables

  pub snapshot_files-listed :
      (d : e.Disk) (tables : List String) → snapshot_files e d tables ≡ some (listed d tables)
  unfolding snapshot_files list_parquet_files listed
  snapshot_files-listed d [] = refl
  snapshot_files-listed d (table ∷ tables) =
      rw (snapshot_files-listed d tables, list_parquet_files, r.list-files d table) refl

  abbrev Listed : Db e → Db e → Type 0
  Listed d d1 =
      (txn : Transaction e) × (d1.active_txn ≡ some txn)
      × (txn.file_snapshot ≡ listed d.disk (keys d.catalog.tables))
      × (txn.rewrite_backups ≡ [])

  begun_with-Listed :
      (d : Db e) (o : Option (HashMap (List String)))
      → o ≡ some (listed d.disk (keys d.catalog.tables))
      → Ends (Listed d) (begin_with e d o)
  begun_with-Listed d none h = tt
  begun_with-Listed d (some files) h = (new_txn e d files (next_txn_id d.journal).0, refl, cc, refl)

  handle_begin-Listed : (d : Db e) → Ends (Listed d) (handle_begin e d)
  unfolding handle_begin
  handle_begin-Listed d = unless_active d.active_txn
    where
      unless_active :
          (o : Option (Transaction e))
          → Ends (Listed d) (elim o [
            | some txn ↦ failed nested_begin d
            | none ↦ begin_with e d (snapshot_files e d.disk (keys d.catalog.tables))
          ])
      unless_active (some txn) = tt
      unless_active none =
          begun_with-Listed d (snapshot_files e d.disk (keys d.catalog.tables))
            (snapshot_files-listed d.disk (keys d.catalog.tables))

  pub newer_at :
      (d d2 : e.Disk) (tables : List String) (t f : String)
      → has_name tables t ≡ true
      → is_parquet f ≡ true
      → stored e r d2 t f ≡ true
      → newer e r (listed d tables) d2 f ≡ false
      → stored e r d t f ≡ true
  unfolding newer listed has_name
  newer_at d d2 [] t f known p now old = absurd (unfold has_name in cc)
  newer_at d d2 (table ∷ tables) t f known p now old = elim (Bool-cases (str_eq table t)) [
    | inl h ↦ ground (
      arith,
      has_name-filter is_parquet f (r.files d table),
      same_test (λ x. stored e r d x f) table t h,
      same_test (λ x. stored e r d2 x f) table t h,
      old,
      p,
      now,
    )
    | inr h ↦ newer_at d d2 tables t f (ground (arith, known, h)) p now (ground (arith, old))
  ]

-- BEGIN, and ROLLBACK of the transaction that it started, which rewrote no table and whose
-- snapshots were not changed, on a reliable remote store: of the files that the store has before
-- ROLLBACK exactly those go that are either Parquet files in a table of the time of BEGIN that were
-- not in that table then, or files of a table that the catalog did not have then.
pub rollback-begin_files :
    (e : Env) (r : Reliable e) (d d1 d2 d3 : Db e) (txn : Transaction e) (deletes : List TableMeta)
    (savepoints : List (Savepoint e)) (t f : String)
    → handle_begin e d ≡ message d1
    → d1.active_txn ≡ some txn
    → d2.active_txn ≡ some (record txn { deferred_deletes = deletes; savepoints = savepoints })
    → handle_rollback e d2 ≡ message d3
    → stored e r d3.disk t f
      ≡ (stored e r d2.disk t f && not (doomed r (listed r d.disk (keys d.catalog.tables)) d2 f))
rollback-begin_files e r d d1 d2 d3 txn deletes savepoints t f started active kept rolled =
    let (t1, at, files, none_yet) =
      Ends-message (Listed r d) (handle_begin e d) (handle_begin-Listed r d) started in
    let same : t1 ≡ txn = cc (at, active) in
    let t2 : Transaction e = record txn { deferred_deletes = deletes; savepoints = savepoints } in
    let left : stored e r d3.disk t f
        ≡ (stored e r d2.disk t f && not (doomed r txn.file_snapshot d2 f)) =
      Ends-message
        (λ x.
          stored e r x.disk t f ≡ (stored e r d2.disk t f && not (doomed r txn.file_snapshot d2 f)))
        (handle_rollback e d2)
        (handle_rollback-Left r t2 d2 t f kept (subst (λ u. u.rewrite_backups ≡ []) same none_yet))
        rolled in
    left
    ∙ ap (λ s. stored e r d2.disk t f && not (doomed r s d2 f))
        (subst (λ u. u.file_snapshot ≡ listed r d.disk (keys d.catalog.tables)) same files)

-- Under the same conditions every Parquet file that is in a table of the time of BEGIN after
-- ROLLBACK was in that table at BEGIN.
rollback-begin_no_new :
    (e : Env) (r : Reliable e) (d d1 d2 d3 : Db e) (txn : Transaction e) (deletes : List TableMeta)
    (savepoints : List (Savepoint e)) (t f : String)
    → handle_begin e d ≡ message d1
    → d1.active_txn ≡ some txn
    → d2.active_txn ≡ some (record txn { deferred_deletes = deletes; savepoints = savepoints })
    → handle_rollback e d2 ≡ message d3
    → has_name (keys d.catalog.tables) t ≡ true
    → is_parquet f ≡ true
    → stored e r d3.disk t f ≡ true
    → stored e r d.disk t f ≡ true
rollback-begin_no_new e r d d1 d2 d3 txn deletes savepoints t f started active kept rolled known p
      now =
    let left =
      rollback-begin_files e r d d1 d2 d3 txn deletes savepoints t f started active kept rolled in
    newer_at r d.disk d2.disk (keys d.catalog.tables) t f known p (ground (arith, left, now))
      (ground (arith, left, now))
