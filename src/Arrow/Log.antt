-- ===== src/Arrow/Log.antt =====
-- `ArrowWal`: its directory, and its operations.
use potatodb.Prelude.{
  ℕ, ◌+◌, ◌-◌, ◌%◌, ◌^◌, min, max, String, Bool, true, false, ◌&&◌, ◌||◌, Option, none, some, List,
  [], ◌∷◌, ◌++◌, ◌≡◌, filter, take, is_empty, if◌then◌else◌, unwrap_or, ltb, leb, ◌==◌, str_eq,
}
use potatodb.Prelude.HashMap.{HashMap, get, insert, remove}
use potatodb.Arrow.Name.{file_name, file_stem, is_arrow, bytes_eq, parse_u64, le_bytes}

-- Arrow's IPC file format. `encode` fails where a batch does not have the schema of the first.
pub record Ipc : Type 1 where
  pub Batch : Type 0
  pub encode : List Batch → Option (List ℕ)
  pub decode : List ℕ → Option (List Batch)
  pub decode-encode :
      (batches : List Batch) (bytes : List ℕ)
      → encode batches ≡ some bytes
      → decode bytes ≡ some batches

-- The files of a table's directory with their names, and the directories by their tables.
abbrev pub Files : Type 0
Files = List (List ℕ × List ℕ)

abbrev pub Disk : Type 0
Disk = HashMap Files

-- `Duration`s are numbers of nanoseconds.
pub data ArrowWalSyncPolicy : Type 0 where
  always never : ArrowWalSyncPolicy
  every_n_appends every_interval : ℕ → ArrowWalSyncPolicy

-- `scratch` is cleared before each use, and its capacity changes nothing; both are left out.
pub record ArrowWal : Type 0 where
  pub dir : Disk
  pub seq : ℕ
  pub known_dirs : List String
  pub sync_policy : ArrowWalSyncPolicy
  pub appends_since_sync : ℕ
  pub last_sync_at : ℕ

-- How far the file operations get. `written`: after how many bytes a write fails; `left`: what a
-- failing `remove_dir_all` leaves of a table's directory.
pub record Faults : Type 0 where
  pub made : Bool
  pub created : Bool
  pub written : Option ℕ
  pub synced : Bool
  pub left : String → Option Files
  pub readable : String → Bool

pub data Outcome : Type 0 where
  ok err : ArrowWal → Outcome

infixl 5 ◌>>=◌
abbrev pub ◌>>=◌ : Outcome → (ArrowWal → Outcome) → Outcome
Outcome.ok w >>= f = f w
Outcome.err w >>= f = Outcome.err w

unfoldable pub contains : List String → String → Bool
contains [] t = false
contains (x ∷ xs) t = str_eq x t || contains xs t

unfoldable pub forget : List String → String → List String
forget [] t = []
forget (x ∷ xs) t = let rest = forget xs t in if str_eq x t then rest else x ∷ rest

-- `File::create` and `write_all`: a file of the name is replaced.
unfoldable pub put_file : Files → List ℕ → List ℕ → Files
put_file [] name bytes = (name, bytes) ∷ []
put_file ((n, b) ∷ files) name bytes =
    let rest = put_file files name bytes in
    if bytes_eq n name then (name, bytes) ∷ files else (n, b) ∷ rest

-- `create_dir_all`
unfoldable pub make_dir : Disk → String → Disk
unfolding get insert
make_dir dir table = elim (get dir table) [ none ↦ insert dir table [] | some files ↦ dir ]

unfoldable pub should_sync : ArrowWalSyncPolicy → ℕ → ℕ → Bool
should_sync ArrowWalSyncPolicy.always appends elapsed = true
should_sync (ArrowWalSyncPolicy.every_n_appends n) appends elapsed = ltb 0 n && (appends % n == 0)
should_sync (ArrowWalSyncPolicy.every_interval d) appends elapsed = d == 0 || leb d elapsed
should_sync ArrowWalSyncPolicy.never appends elapsed = false

-- The end of `append`, with the file written.
unfoldable pub sync : Faults → ℕ → ArrowWal → Outcome
unfolding should_sync
sync f now w =
    let appends = min (w.appends_since_sync + 1) (2 ^ 64 - 1) in
    let counted = record w { appends_since_sync = appends } in
    if should_sync w.sync_policy appends (now - w.last_sync_at)
    then (if f.synced
        then Outcome.ok (record w { appends_since_sync = 0; last_sync_at = now })
        else Outcome.err counted)
    else Outcome.ok counted

-- The bytes of a new file; in a directory that is not there no file can be created.
abbrev pub write_into : Faults → ℕ → ArrowWal → String → List ℕ → Option Files → Outcome
write_into f now w table bytes none = Outcome.err w
write_into f now w table bytes (some files) =
    let name = file_name w.seq in
    if f.created
    then elim f.written [
      | none ↦ sync f now (record w { dir = insert w.dir table (put_file files name bytes) })
      | some k ↦
          Outcome.err (record w { dir = insert w.dir table (put_file files name (take k bytes)) })
    ]
    else Outcome.err w

abbrev pub write_encoded : Faults → ℕ → ArrowWal → String → Option (List ℕ) → Outcome
write_encoded f now w table none = Outcome.err w
write_encoded f now w table (some bytes) = write_into f now w table bytes (get w.dir table)

-- The directory of a table that is not known yet is created.
unfoldable pub open_dir : Faults → ArrowWal → String → Outcome
unfolding contains make_dir
open_dir f w table =
    if contains w.known_dirs table
    then Outcome.ok w
    else let known = record w { known_dirs = table ∷ w.known_dirs } in
      if f.made then Outcome.ok (record known { dir = make_dir w.dir table }) else Outcome.err known

abbrev pub next_seq : ArrowWal → ArrowWal
next_seq w = record w { seq = (w.seq + 1) % 2 ^ 64 }

abbrev pub has_extension : List ℕ × List ℕ → Bool
has_extension entry = is_arrow entry.0

unfoldable pub insert_sorted : List ℕ × List ℕ → Files → Files
insert_sorted entry [] = entry ∷ []
insert_sorted entry (other ∷ files) =
    let rest = insert_sorted entry files in
    if le_bytes entry.0 other.0 then entry ∷ other ∷ files else other ∷ rest

-- `sort_by_key(DirEntry::file_name)`
unfoldable pub sort_by_name : Files → Files
unfolding insert_sorted
sort_by_name [] = []
sort_by_name (entry ∷ files) = insert_sorted entry (sort_by_name files)

module _ (ipc : Ipc) where
  open ipc use {Batch, encode, decode}

  unfoldable pub append : Faults → ℕ → String → List Batch → ArrowWal → Outcome
  unfolding open_dir insert put_file sync get
  append f now table batches w =
      if is_empty batches
      then Outcome.ok w
      else open_dir f w table >>= λ w1. write_encoded f now (next_seq w1) table (encode batches)

  abbrev pub with_batches : Option (List Batch) → Option (List Batch) → Option (List Batch)
  with_batches none rest = none
  with_batches (some bs) none = none
  with_batches (some bs) (some rest) = some (bs ++ rest)

  -- Files read one after the other; `none` is the error of an invalid file.
  unfoldable pub read_files : Files → Option (List Batch)
  read_files [] = some []
  read_files ((name, bytes) ∷ files) = with_batches (decode bytes) (read_files files)

  unfoldable pub recover_table : Files → Option (List Batch)
  unfolding read_files sort_by_name
  recover_table files = read_files (sort_by_name (filter has_extension files))

  abbrev pub with_table :
      String → Option (List Batch) → Option (HashMap (List Batch)) → Option (HashMap (List Batch))
  with_table table none rest = none
  with_table table (some bs) none = none
  with_table table (some bs) (some rest) = some ((table, bs) ∷ rest)

  -- The order of the tables is lost in the map that is returned.
  unfoldable pub recover : Disk → Option (HashMap (List Batch))
  unfolding recover_table
  recover [] = some []
  recover ((table, files) ∷ dir) = with_table table (recover_table files) (recover dir)

unfoldable pub checkpoint_table : Faults → String → ArrowWal → Outcome
unfolding get insert remove forget
checkpoint_table f table w =
    let forgotten = forget w.known_dirs table in
    elim (get w.dir table) [
      | none ↦ Outcome.ok (record w { known_dirs = forgotten })
      | some files ↦ elim (f.left table) [
        | none ↦ Outcome.ok (record w { dir = remove w.dir table; known_dirs = forgotten })
        | some rest ↦ Outcome.err (record w { dir = insert w.dir table rest })
      ]
    ]

-- What is left of the directories, and whether all were removed.
unfoldable pub remove_dirs : Faults → Disk → Disk × Bool
remove_dirs f [] = ([], true)
remove_dirs f ((table, files) ∷ dir) = elim (f.left table) [
  | none ↦ remove_dirs f dir
  | some rest ↦ ((table, rest) ∷ dir, false)
]

abbrev pub removed : ArrowWal → Disk × Bool → Outcome
removed w (dir, true) = Outcome.ok (record w { dir = dir; known_dirs = [] })
removed w (dir, false) = Outcome.err (record w { dir = dir })

unfoldable pub checkpoint_all : Faults → ArrowWal → Outcome
unfolding remove_dirs
checkpoint_all f w = removed w (remove_dirs f w.dir)

-- `map_or(n, |m| m.max(n))` over the numbers of the files' stems
abbrev pub max_with : Option ℕ → Option ℕ → Option ℕ
max_with none so_far = so_far
max_with (some n) none = some n
max_with (some n) (some m) = some (max m n)

unfoldable pub max_in_files : Files → Option ℕ → Option ℕ
unfolding file_stem parse_u64
max_in_files [] so_far = so_far
max_in_files ((name, bytes) ∷ files) so_far =
    max_in_files files (max_with (parse_u64 (file_stem name)) so_far)

-- A table's directory that cannot be read ends the search with `None`.
unfoldable pub max_existing_seq : (String → Bool) → Disk → Option ℕ → Option ℕ
unfolding max_in_files
max_existing_seq readable [] so_far = so_far
max_existing_seq readable ((table, files) ∷ dir) so_far = elim (readable table) [
  | true ↦ max_existing_seq readable dir (max_in_files files so_far)
  | false ↦ none
]

-- `ArrowWal::open_with_config`; `none` is its error.
unfoldable pub open_with_config : Faults → ArrowWalSyncPolicy → ℕ → Disk → Option ArrowWal
unfolding max_existing_seq
open_with_config f sync_policy now dir =
    if f.made
    then some (record {
      dir = dir;
      seq = unwrap_or (max_existing_seq f.readable dir none) 0;
      known_dirs = [];
      sync_policy = sync_policy;
      appends_since_sync = 0;
      last_sync_at = now;
    })
    else none
