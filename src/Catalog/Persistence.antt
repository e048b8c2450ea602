-- ===== src/Catalog/Persistence.antt =====
-- Saving the catalog in the object store and loading it. The store and the JSON library are
-- interfaces with their documented laws.
use potatodb.Prelude.{◌≡◌, inl, inr, true, false, arith, Option, none, some}
use potatodb.Prelude.{[], if◌then◌else◌, Option-cases}
use potatodb.Prelude.HashMap.{HashMap}
use potatodb.Catalog.Types.{TableMeta}
use potatodb.Catalog.State.{Catalog, CatalogData, saved_data, from_data, from_tables}

-- What `store.get(path)` comes to, with the `bytes()` of the result. `Bytes` is the type of an
-- object's contents.
pub data Fetched (Bytes : Type 0) : Type 0 where
  found : Bytes → Fetched Bytes
  not_found failed : Fetched Bytes

-- `ObjectStore` at the catalog's path: what was put last is what is got.
pub record ObjectStore (Bytes : Type 0) : Type 1 where
  pub Objects : Type 0
  pub fetch : Objects → Fetched Bytes
  pub put : Objects → Bytes → Option Objects
  pub fetch-put : (s s' : Objects) (b : Bytes) → put s b ≡ some s' → fetch s' ≡ found b

-- `serde_json` at the two types that `load` tries: what was serialized is parsed back.
pub record Json (Bytes : Type 0) : Type 0 where
  pub to_string : CatalogData → Option Bytes
  pub from_slice : Bytes → Option CatalogData
  pub tables_from_slice : Bytes → Option (HashMap TableMeta)
  pub from-to : (d : CatalogData) (b : Bytes) → to_string d ≡ some b → from_slice b ≡ some d

pub data Outcome {ℓ} (A : Type ℓ) : Type ℓ where
  ok : A → Outcome A
  err : Outcome A

module _ {Bytes : Type 0} (store : ObjectStore Bytes) (json : Json Bytes) where
  open store use {Objects, fetch, put, fetch-put}

  unfoldable pub load_bytes : Bytes → Outcome Catalog
  load_bytes bytes = elim (json.from_slice bytes) [
    | some d ↦ ok (from_data d)
    | none ↦ elim (json.tables_from_slice bytes) [
      | some tables ↦ ok (from_tables tables)
      | none ↦ err
    ]
  ]

  unfoldable pub load_fetched : Fetched Bytes → Outcome Catalog
  unfolding load_bytes
  load_fetched (found bytes) = load_bytes bytes
  load_fetched not_found = ok (from_tables [])
  load_fetched failed = err

  unfoldable pub load : Objects → Outcome Catalog
  unfolding load_fetched
  load s = load_fetched (fetch s)

  -- The catalog, the objects, and whether the write succeeded.
  unfoldable pub write_to_store : Catalog → Objects → Outcome Objects
  write_to_store c s = elim (json.to_string (saved_data c)) [
    | none ↦ err
    | some bytes ↦ elim (put s bytes) [ none ↦ err | some s' ↦ ok s' ]
  ]

  -- `dirty` is cleared before the write, and stays cleared if the write fails.
  unfoldable pub force_save : Catalog → Objects → Catalog × Outcome Objects
  force_save c s = let c' = record c { dirty = false } in (c', write_to_store c' s)

  unfoldable pub flush_if_dirty : Catalog → Objects → Catalog × Outcome Objects
  unfolding force_save
  flush_if_dirty c s =
      if c.dirty
      then (record c { dirty = false }, write_to_store (record c { dirty = false }) s)
      else (c, ok s)

  write_to_store-fetch :
      (c : Catalog) (s s' : Objects)
      → write_to_store c s ≡ ok s'
      → (b : Bytes) × (json.to_string (saved_data c) ≡ some b) × (fetch s' ≡ found b)
  unfolding write_to_store
  write_to_store-fetch c s s' h = elim (Option-cases (json.to_string (saved_data c))) [
    | inl bad ↦ absurd (ground (arith, bad))
    | inr (b, text) ↦ elim (Option-cases (put s b)) [
      | inl bad ↦ absurd (ground (arith, text, bad))
      | inr (s1, done) ↦ (b, text, ground (arith, text, done, fetch-put s s1 b done))
    ]
  ]

  -- A catalog that was saved is loaded as it was, outside any transaction and with nothing to flush.
  pub load-force_save :
      (c : Catalog) (s s' : Objects)
      → (force_save c s).1 ≡ ok s'
      → load s' ≡ ok (record c { in_transaction = false; dirty = false })
  unfolding load force_save from_data saved_data
  load-force_save c s s' h =
      let (b, text, at) = write_to_store-fetch (record c { dirty = false }) s s' h in
      ground (arith, at, json.from-to (saved_data (record c { dirty = false })) b text)

  -- `flush_if_dirty` forgets that there was something to write: after a write that failed the next
  -- flush, on any store, writes nothing and reports success.
  pub flush_if_dirty_forgets :
      (c : Catalog) (s s' : Objects)
      → c.dirty ≡ true
      → (flush_if_dirty c s).1 ≡ err
      → flush_if_dirty (flush_if_dirty c s).0 s' ≡ ((flush_if_dirty c s).0, ok s')
  unfolding flush_if_dirty
  flush_if_dirty_forgets c s s' dirty unwritten = ground (arith, dirty)
