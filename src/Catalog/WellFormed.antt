-- ===== src/Catalog/WellFormed.antt =====
-- The catalog's invariant: every entry of a map stands there once, under its own name.
use potatodb.Prelude.{String, ◌≡◌, ap, Bool, some, arith}
use potatodb.Prelude.{str_eq_iff}
use potatodb.Prelude.HashMap.{
  HashMap, get, insert, remove, retain, Unique, Unique-insert, Unique-remove, Unique-retain,
  get-insert, get-remove, get-retain,
}

pub record IsKeyed {V : Type 0} (name : V → String) (m : HashMap V) : Type 0 where
  pub unique : Unique m
  pub named : (k : String) (v : V) → get m k ≡ some v → name v ≡ k

module _ {V : Type 0} (name : V → String) (m : HashMap V) (h : IsKeyed name m) where
  pub insert-IsKeyed : (k : String) (v : V) → name v ≡ k → IsKeyed name (insert m k v)
  insert-IsKeyed k v e = record {
    unique = Unique-insert m k v h.unique;
    named = λ j x p.
        ground (arith, get-insert m k j v, h.named j x, str_eq_iff k j, ap name {x = v} {y = x});
  }

  pub remove-IsKeyed : (k : String) → IsKeyed name (remove m k)
  remove-IsKeyed k = record {
    unique = Unique-remove m k h.unique;
    named = λ j x p. ground (arith, get-remove m k j, h.named j x);
  }

  pub retain-IsKeyed : (p : V → Bool) → IsKeyed name (retain p m)
  retain-IsKeyed p = record {
    unique = Unique-retain p m h.unique;
    named = λ j x q. ground (arith, get-retain p m j h.unique, h.named j x);
  }
