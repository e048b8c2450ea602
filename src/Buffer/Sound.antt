-- ===== src/Buffer/Sound.antt =====
-- What is asked of DataFusion for the buffer's theorems, and rules for the calls.
use potatodb.Prelude.{ℕ, ◌≡◌, ◌≢◌, subst, String, true, Option, none, some, List, [], ◌++◌}
use potatodb.Prelude.HashMap.{HashMap, get}
use potatodb.Catalog.State.{Catalog}
use potatodb.Buffer.State.{
  Env, BufferedInsert, Db, Reply, done, failed, ◌>>=◌, ConstraintValidationPhase, total,
}

-- What a table holds: a write that returns Ok puts the batches to it; in what order the rows are kept is left open. The other calls change no table's rows,
-- and drop no table.
pub record Sound (e : Env) : Type 1 where
  pub Content : Type 0
  pub content : e.World → String → Content
  pub put : Content → Option (List String) → List e.ipc.Batch → Content
  pub put-append :
      (c : Content) (columns : Option (List String)) (xs ys : List e.ipc.Batch)
      → put (put c columns xs) columns ys ≡ put c columns (xs ++ ys)
  pub put_empty :
      (c : Content) (columns : Option (List String)) (xs : List e.ipc.Batch)
      → total e.num_rows xs ≡ 0
      → put c columns xs ≡ c
  pub content-write :
      (tmp : ℕ) (table : String) (columns : Option (List String)) (xs : List e.ipc.Batch)
      (c : Catalog) (w : e.World)
      → (e.write tmp table columns xs c w).1 ≡ true
      → content (e.write tmp table columns xs c w).0 table ≡ put (content w table) columns xs
  pub content-write_other :
      (tmp : ℕ) (table : String) (columns : Option (List String)) (xs : List e.ipc.Batch)
      (c : Catalog) (w : e.World) (t : String)
      → table ≢ t
      → content (e.write tmp table columns xs c w).0 t ≡ content w t
  pub content-validate :
      (phase : ConstraintValidationPhase) (table : String) (columns : List String)
      (xs : List e.ipc.Batch) (c : Catalog) (w : e.World) (t : String)
      → content (e.validate phase table columns xs c w).0 t ≡ content w t
  pub content-merge :
      (merges : e.Merges) (w : e.World) (t : String) → content (e.merge merges w) t ≡ content w t
  pub content-refresh :
      (table : String) (c : Catalog) (w : e.World) (t : String)
      → content (e.refresh table c w).1 t ≡ content w t
  pub content-compact :
      (table : String) (c : Catalog) (w : e.World) (t : String)
      → content (e.compact table c w).1 t ≡ content w t
  pub tables-refresh :
      (table : String) (c : Catalog) (w : e.World) (t : String)
      → get (e.refresh table c w).0.tables t ≡ none
      → get c.tables t ≡ none
  pub tables-compact :
      (table : String) (c : Catalog) (w : e.World) (t : String)
      → get (e.compact table c w).0.tables t ≡ none
      → get c.tables t ≡ none

module _ {e : Env} where
  -- Where a call returns Ok, the state that it leaves has the property.
  abbrev pub Ends : {A : Type 0} → (Db e → Type 0) → Reply e A → Type 0
  Ends P (done a d) = P d
  Ends P (failed d) = Unit {0}

  pub Ends-bind :
      {A B : Type 0} (P Q : Db e → Type 0) (m : Reply e A) (f : A → Db e → Reply e B)
      → Ends P m
      → ((a : A) (d : Db e) → P d → Ends Q (f a d))
      → Ends Q (m >>= f)
  Ends-bind P Q (done a d) f h k = k a d h
  Ends-bind P Q (failed d) f h k = tt

  pub Ends-done :
      {A : Type 0} (P : Db e → Type 0) (m : Reply e A) (a : A) (d : Db e)
      → Ends P m
      → m ≡ done a d
      → P d
  Ends-done P m a d h q = subst (Ends P) q h

  abbrev pub batches_in : Option (BufferedInsert e) → List e.ipc.Batch
  batches_in none = []
  batches_in (some entry) = entry.batches

  -- The batches that are buffered for a table.
  abbrev pub buffered : HashMap (BufferedInsert e) → String → List e.ipc.Batch
  buffered buffer t = batches_in (get buffer t)
