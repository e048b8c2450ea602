-- ===== src/Buffer/Replay.antt =====
-- The replay of what was recovered puts every table's batches to it.
use potatodb.Prelude.{
  ◌≡◌, refl, sym, ap, ◌∙◌, subst, String, Bool, true, false, Option, none, some, List, [], ◌∷◌,
  is_empty, if◌then◌else◌, str_eq, str_eq_iff, Bool-cases, inl, inr,
}
use potatodb.Prelude.HashMap.{get-Fresh, HashMap, get, Fresh, Unique}
use potatodb.Catalog.Types.{TableMeta}
use potatodb.Arrow.Holds.{Logged, cleared, batches_of}
use potatodb.Arrow.Reopen.{nothing}
use potatodb.Buffer.State.{Env, Db, done, ◌>>=◌, total}
use potatodb.Buffer.Flush.{flush_table}
use potatodb.Buffer.Insert.{Moment, buffer_insert_batches}
use potatodb.Buffer.Recover.{replay_table, replay_tables, replay_recovered}
use potatodb.Buffer.Sound.{Sound, Ends, Ends-bind}
use potatodb.Buffer.Stage.{written}
use potatodb.Buffer.Buffered.{Both, flush_table-Both}
use potatodb.Buffer.Inserted.{After, no_rows, buffer_insert_batches-After}
use potatodb.Buffer.Statements.{empty-Rows}

module _ {e : Env} (s : Sound e) where
  open s use {Content, content, put}

  -- What the tables hold when the recovered batches are put to them.
  abbrev replayed : HashMap (List e.ipc.Batch) → (String → Content) → String → Content
  replayed [] g = g
  replayed ((table, batches) ∷ rs) g = replayed rs (written s table none batches g)

  replayed-get :
      (rs : HashMap (List e.ipc.Batch)) (g : String → Content) (t : String)
      → Unique rs
      → replayed rs g t ≡ put (g t) none (batches_of e.ipc (get rs t))
  unfolding get batches_of
  replayed-get [] g t u = sym (s.put_empty (g t) none [] refl)
  replayed-get ((table, batches) ∷ rs) g t u = elim (Bool-cases (str_eq table t)) [
    | inl q ↦
        let here : table ≡ t = (str_eq_iff table t).0 q in
        rw
          (
            replayed-get rs (written s table none batches g) t u.1,
            q,
            get-Fresh rs t (subst (λ k. Fresh k rs) here u.0),
          )
          (s.put_empty (put (g t) none batches) none [] refl)
    | inr q ↦ rw (replayed-get rs (written s table none batches g) t u.1, q) refl
  ]

  module _ (C : HashMap TableMeta) where
    -- Nothing is buffered, and the tables hold `g`, while the log is replayed.
    abbrev Quiet : (String → Content) → Db e → Type 0
    Quiet g d = (L : Logged e.ipc) × ((t : String) → L t ≡ []) × Both s C true L g 0 d

    more :
        (L : Logged e.ipc) (g : String → Content) (d : Db e)
        → Both s C true L g 0 d
        → Both s C true L g 1 d
    more L g d (h, k) = (h, λ z. cc)

    -- Tables that are not in the catalog have nothing in the log.
    abbrev Known : HashMap (List e.ipc.Batch) → Type 0
    Known [] = Unit
    Known ((table, batches) ∷ rs) = (get C table ≡ none → batches ≡ []) × Known rs

    replay_table-Quiet :
        (m : Moment) (table : String) (batches : List e.ipc.Batch) (g : String → Content) (d : Db e)
        → (get C table ≡ none → batches ≡ [])
        → Quiet g d
        → Ends (Quiet (written s table none batches g)) (replay_table e m table batches d)
    replay_table-Quiet m table batches g d known (L, empty, h) =
        go (get d.catalog.tables table) refl
      where
        g1 : String → Content
        g1 = written s table none batches g

        go :
            (o : Option TableMeta)
            → get d.catalog.tables table ≡ o
            → Ends {A = Unit {0}} (Quiet g1) (elim o [
              | none ↦ done tt d
              | some meta ↦
                  (buffer_insert_batches e m table none batches d >>= λ _ d1.
                  flush_table e m.faults table d1 >>= λ _ d2. done tt d2)
            ])
        go none q = (
          L,
          empty,
          no_rows s C true L g 0 table batches d
              (ap (total e.num_rows) (known (h.0.tables table q))) h,
        )
        go (some meta) q =
            Ends-bind (After s C true L g1 0 table) (Quiet g1) _ _
              (buffer_insert_batches-After s C true L g 0 m table batches d (more L g d h))
              λ u d1 (L1, others, k).
                Ends-bind (Both s C true (cleared e.ipc table L1) g1 0) (Quiet g1) _ _
                  (flush_table-Both s C true L1 g1 0 m.faults table d1 k)
                  λ n d2 k2. (
                    cleared e.ipc table L1,
                    λ t. elim (Bool-cases (str_eq table t)) [
                      | inl z ↦ rw z refl
                      | inr z ↦ rw z (others t z ∙ empty t)
                    ],
                    k2,
                  )

    replay_tables-Quiet :
        (m : Moment) (rs : HashMap (List e.ipc.Batch)) (g : String → Content) (d : Db e)
        → Known rs
        → Quiet g d
        → Ends (Quiet (replayed rs g)) (replay_tables e m rs d)
    unfolding replay_tables
    replay_tables-Quiet m [] g d known h = h
    replay_tables-Quiet m ((table, batches) ∷ rs) g d known h =
        let g1 = written s table none batches g in
        Ends-bind (Quiet g1) (Quiet (replayed rs g1)) (replay_table e m table batches d) _
          (replay_table-Quiet m table batches g d known.0 h)
          λ u d1 k. replay_tables-Quiet m rs g1 d1 known.1 k

  recovered-Known :
      (C : HashMap TableMeta) (rs : HashMap (List e.ipc.Batch))
      → Unique rs
      → ((t : String) → get C t ≡ none → batches_of e.ipc (get rs t) ≡ [])
      → Known C rs
  unfolding get batches_of
  recovered-Known C [] u h = tt
  recovered-Known C ((table, batches) ∷ rs) u h = (
    λ q.
        ap (λ b. batches_of e.ipc (if b then some batches else get rs table))
          (sym ((str_eq_iff table table).1 refl))
        ∙ h table q,
    recovered-Known C rs u.1 λ t q. elim (Bool-cases (str_eq table t)) [
      | inl z ↦
          ap (batches_of e.ipc)
            (get-Fresh rs t (subst (λ k. Fresh k rs) ((str_eq_iff table t).0 z) u.0))
      | inr z ↦ ap (λ b. batches_of e.ipc (if b then some batches else get rs t)) (sym z) ∙ h t q
    ],
  )

  none_in :
      (rs : HashMap (List e.ipc.Batch)) (t : String)
      → is_empty rs ≡ true
      → batches_of e.ipc (get rs t) ≡ []
  unfolding get batches_of
  none_in [] t q = refl
  none_in (x ∷ rs) t q = cc

  pub replay_recovered-stored :
      (m : Moment) (rs : HashMap (List e.ipc.Batch)) (d : Db e)
      → d.write_buffer ≡ []
      → Unique rs
      → ((t : String) → get d.catalog.tables t ≡ none → batches_of e.ipc (get rs t) ≡ [])
      → Ends
          (λ d1.
            (t : String)
            → content d1.world t ≡ put (content d.world t) none (batches_of e.ipc (get rs t)))
          (replay_recovered e m d (some rs))
  replay_recovered-stored m rs d empty u known = replayed_or_not (is_empty rs) refl
    where
      start : Quiet d.catalog.tables (content d.world) (record d { replaying_wal = true })
      start = (
        nothing e.ipc,
        λ t. refl,
        (empty-Rows s true (record d { replaying_wal = true }) empty refl, λ z. cc),
      )

      replayed_or_not :
          (b : Bool)
          → is_empty rs ≡ b
          → Ends {A = Unit {0}}
              (λ d1.
                (t : String)
                → content d1.world t ≡ put (content d.world t) none (batches_of e.ipc (get rs t)))
              (if b
                then done tt d
                else (replay_tables e m rs (record d { replaying_wal = true }) >>= λ _ d1.
                    done tt (record d1 { replaying_wal = false })))
      replayed_or_not true q = λ t. sym (
          s.put_empty (content d.world t) none (batches_of e.ipc (get rs t))
            (ap (total e.num_rows) (none_in rs t q)))
      replayed_or_not false q =
          Ends-bind (Quiet d.catalog.tables (replayed rs (content d.world))) _ _ _
            (replay_tables-Quiet d.catalog.tables m rs (content d.world)
              (record d { replaying_wal = true }) (recovered-Known d.catalog.tables rs u known)
              start)
            λ x d1 (L, none_left, (h, k)) t.
              sym
                (s.put_empty (content d1.world t) none (L t) (ap (total e.num_rows) (none_left t)))
              ∙ h.stored t
              ∙ replayed-get rs (content d.world) t u
