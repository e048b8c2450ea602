-- ===== src/Tests/Hasher.antt =====
-- A checksum that obeys the laws of the hasher, and devices.
use potatodb.Prelude.{
  ℕ, ◌+◌, ◌%◌, ◌^◌, ◌<◌, none, some, true, List, [], ◌∷◌, ◌++◌, append_assoc, arith,
}
use potatodb.Wal.Crc.{Hasher}
use potatodb.Wal.File.{Device}

unfoldable pub sum_bytes : List ℕ → ℕ
sum_bytes [] = 0
sum_bytes (b ∷ bs) = b + sum_bytes bs

pub sum_hasher_lt : (h : List ℕ) → sum_bytes h % 2 ^ 32 < 2 ^ 32
sum_hasher_lt h = omega arith

abbrev pub sum_hasher : Hasher
sum_hasher = record {
  State = List ℕ;
  init = [];
  update = λ h bs. h ++ bs;
  finalize = λ h. sum_bytes h % 2 ^ 32;
  update-update = append_assoc;
  finalize_lt = sum_hasher_lt;
}

-- A device on which everything succeeds, and one that fails after five bytes.
abbrev pub sound : Device
sound = record {
  written = none;
  spilled = λ n. none;
  direct = λ n. none;
  synced = true;
  opened = true;
  stat = true;
}

abbrev pub full_disk : Device
full_disk = record {
  written = some 5;
  spilled = λ n. some 5;
  direct = λ n. some 5;
  synced = true;
  opened = true;
  stat = true;
}
