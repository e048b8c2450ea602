-- ===== src/Wal/Crc.antt =====
-- What crates/wal/src/lib.rs uses of `crc32fast::Hasher`: `new`, `update` and `finalize`. The laws
-- are its documented behaviour: hashing in pieces is hashing the whole, and the result is a `u32`.
use potatodb.Prelude.{ℕ, ◌^◌, ◌<◌, ◌≡◌, List, ◌++◌}

pub record Hasher : Type 1 where
  pub State : Type 0
  pub init : State
  pub update : State → List ℕ → State
  pub finalize : State → ℕ
  pub update-update : (h : State) (a b : List ℕ) → update (update h a) b ≡ update h (a ++ b)
  pub finalize_lt : (h : State) → finalize h < 2 ^ 32
