-- ===== src/Txn/Partial.antt =====
-- Partial rollback: SAVEPOINT with ROLLBACK TO, with RELEASE, and with ROLLBACK.
use potatodb.Prelude.{◌≡◌, sym, ap, ◌∙◌, String, false, none, some, List, [], ◌∷◌, ◌++◌}
use potatodb.Catalog.State.{snapshot, restore}
use potatodb.Txn.State.{Env, Db, Transaction, Savepoint, message}
use potatodb.Txn.Control.{handle_rollback}
use potatodb.Txn.Savepoints.{handle_savepoint, handle_rollback_to, handle_release_savepoint}
use potatodb.Txn.Restores.{Ends-message, Holds, after_rollback, handle_rollback-Holds}
use potatodb.Txn.Stack.{
  OtherNames, Pushed, Returned, handle_savepoint-Pushed, handle_rollback_to-Returned,
  handle_release-eq,
}

-- The savepoint that SAVEPOINT pushed, in the transaction that it left.
pushed :
    (e : Env) (name : String) (d d1 : Db e) (txn txn1 : Transaction e)
    → d.active_txn ≡ some txn
    → handle_savepoint e name d ≡ message d1
    → d1.active_txn ≡ some txn1
    → (sp : Savepoint e) × (txn1.savepoints ≡ txn.savepoints ++ sp ∷ [])
      × (sp.name ≡ name)
      × (sp.catalog_snapshot ≡ snapshot d.catalog)
      × (sp.rewrite_backups ≡ txn.rewrite_backups)
pushed e name d d1 txn txn1 active set at1 =
    let (sp, at, named, snap, backups) =
      Ends-message (Pushed name txn d) (handle_savepoint e name d)
        (handle_savepoint-Pushed name txn d active) set in
    let same : record txn { savepoints = txn.savepoints ++ sp ∷ [] } ≡ txn1 = cc (at, at1) in
    (sp, ap (λ t. t.savepoints) (sym same), named, snap, backups)

-- SAVEPOINT, then anything that leaves the transaction with later savepoints of other names on top
-- of it, then ROLLBACK TO: in a transaction that had rewritten no table at the savepoint, the
-- catalog's data is again what it was at SAVEPOINT, and the transaction's savepoints are those
-- that there were up to and with this one.
pub rollback_to-savepoint :
    (e : Env) (name : String) (d d1 d2 d3 : Db e) (txn txn1 txn2 : Transaction e)
    (later : List (Savepoint e))
    → d.active_txn ≡ some txn
    → txn.rewrite_backups ≡ []
    → handle_savepoint e name d ≡ message d1
    → d1.active_txn ≡ some txn1
    → d2.active_txn ≡ some txn2
    → txn2.savepoints ≡ txn1.savepoints ++ later
    → OtherNames name later
    → handle_rollback_to e name d2 ≡ message d3
    → (d3.catalog ≡ restore (snapshot d.catalog) d2.catalog)
      × (txn3 : Transaction e) × (d3.active_txn ≡ some txn3)
      × (txn3.savepoints ≡ txn1.savepoints)
      × (txn3.catalog_snapshot ≡ snapshot d.catalog)
      × (txn3.rewrite_backups ≡ [])
unfolding restore snapshot
rollback_to-savepoint e name d d1 d2 d3 txn txn1 txn2 later active fresh set at1 at2 more others
      back =
    let (sp, pushes, named, snap, backups) = pushed e name d d1 txn txn1 active set at1 in
    let stack : txn2.savepoints ≡ (txn.savepoints ++ sp ∷ []) ++ later =
      more ∙ ap (λ l. l ++ later) pushes in
    let (txn3, at3, catalog, sps, own, none_left) =
      Ends-message (Returned (restore sp.catalog_snapshot d2.catalog) (txn.savepoints ++ sp ∷ []))
        (handle_rollback_to e name d2)
        (handle_rollback_to-Returned name txn2 d2 txn.savepoints later sp at2 stack named others
          (backups ∙ fresh))
        back in
    (
      catalog ∙ ap (λ s. restore s d2.catalog) snap,
      txn3,
      at3,
      sps ∙ sym pushes,
      own ∙ snap,
      none_left,
    )

-- SAVEPOINT, then the same, then RELEASE: the transaction has the savepoints that it had before
-- SAVEPOINT, and nothing else is changed.
release-savepoint :
    (e : Env) (name : String) (d d1 d2 : Db e) (txn txn1 txn2 : Transaction e)
    (later : List (Savepoint e))
    → d.active_txn ≡ some txn
    → handle_savepoint e name d ≡ message d1
    → d1.active_txn ≡ some txn1
    → d2.active_txn ≡ some txn2
    → txn2.savepoints ≡ txn1.savepoints ++ later
    → OtherNames name later
    → handle_release_savepoint e name d2
      ≡ message (record d2 { active_txn = some (record txn2 { savepoints = txn.savepoints }) })
release-savepoint e name d d1 d2 txn txn1 txn2 later active set at1 at2 more others =
    let (sp, pushes, named, snap, backups) = pushed e name d d1 txn txn1 active set at1 in
    let stack : txn2.savepoints ≡ (txn.savepoints ++ sp ∷ []) ++ later =
      more ∙ ap (λ l. l ++ later) pushes in
    handle_release-eq name txn2 d2 txn.savepoints later sp at2 stack named others

-- After ROLLBACK TO a savepoint, ROLLBACK of the transaction does not undo what the transaction
-- had done before the savepoint: the catalog goes back to what it was at SAVEPOINT only, outside
-- any transaction and with nothing to save, under the conditions of `rollback_to-savepoint`.
pub rollback-rollback_to :
    (e : Env) (name : String) (d d1 d2 d3 d4 : Db e) (txn txn1 txn2 : Transaction e)
    (later : List (Savepoint e))
    → d.active_txn ≡ some txn
    → txn.rewrite_backups ≡ []
    → handle_savepoint e name d ≡ message d1
    → d1.active_txn ≡ some txn1
    → d2.active_txn ≡ some txn2
    → txn2.savepoints ≡ txn1.savepoints ++ later
    → OtherNames name later
    → handle_rollback_to e name d2 ≡ message d3
    → handle_rollback e d3 ≡ message d4
    → (d4.catalog ≡ record d.catalog { in_transaction = false; dirty = false })
      × (d4.active_txn ≡ none)
unfolding restore snapshot
rollback-rollback_to e name d d1 d2 d3 d4 txn txn1 txn2 later active fresh set at1 at2 more others
      back undone =
    let (_, txn3, at3, _, own, none_left) =
      rollback_to-savepoint e name d d1 d2 d3 txn txn1 txn2 later active fresh set at1 at2 more
        others back in
    let (c, gone) =
      Ends-message (Holds (after_rollback txn3.catalog_snapshot d3.catalog) none)
        (handle_rollback e d3) (handle_rollback-Holds txn3 d3 at3 none_left) undone in
    (c ∙ ap (λ s. after_rollback s d3.catalog) own, gone)
