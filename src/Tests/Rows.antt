-- ===== src/Tests/Rows.antt =====
-- The Arrow log and the write buffer at small inputs.
use potatodb.Prelude.{
  ℕ, ◌≡◌, refl, sym, String, Bool, true, false, not, none, some, List, [], ◌∷◌, ◌++◌, append_assoc,
  append-nil, any, if◌then◌else◌, str_eq, str_eq_iff, ◌==◌, arith,
}
use potatodb.Prelude.HashMap.{HashMap, get}
use potatodb.Arrow.Log.{
  Ipc, ArrowWal, ArrowWalSyncPolicy, Faults, Outcome, append, checkpoint_table, checkpoint_all,
  recover,
}
use potatodb.Arrow.Name.{zero_padded, file_name, is_arrow, le_bytes}
use potatodb.Arrow.Holds.{batches_of}
use potatodb.Arrow.Reopen.{nothing}
use potatodb.Arrow.Session.{
  Op, append_op, checkpoint_op, reopen_op, new_log, run, logged, recover-run,
}
use potatodb.Buffer.State.{Env, Db, Reply, done, failed, total}
use potatodb.Buffer.Flush.{flush_table, flush_buffered_for_sql}
use potatodb.Buffer.Insert.{Moment, buffer_insert_batches}
use potatodb.Buffer.Recover.{recover_arrow}
use potatodb.Buffer.Sound.{Sound, buffered}
use potatodb.Buffer.Taken.{flush_table_failed}
use potatodb.Buffer.Errors.{buffer_insert_batches_unlogged}
use potatodb.Buffer.Checkpoint.{checkpoint_statement, checkpoint_statement-lost}
use potatodb.Buffer.Statements.{Statement, insert_into, execute_all, inserted}
use potatodb.Buffer.Restart.{flush_buffered_for_sql-inserted, recover_arrow-inserted}
use potatodb.Tests.Metadata.{small}

-- A batch is a number, one row, and a file is the list of its batches.
abbrev numbers : Ipc
numbers = record {
  Batch = ℕ;
  encode = some;
  decode = some;
  decode-encode = λ batches bytes e. sym e;
}

abbrev fine : Faults
fine = record {
  made = true;
  created = true;
  written = none;
  synced = true;
  left = λ t. none;
  readable = λ t. true;
}

abbrev logged_ops : List (Op numbers)
logged_ops =
    append_op fine 0 "users" (1 ∷ 2 ∷ [])
    ∷ append_op fine 1 "orders" (3 ∷ [])
    ∷ reopen_op fine ArrowWalSyncPolicy.always 2
    ∷ append_op fine 3 "users" (4 ∷ [])
    ∷ checkpoint_op fine "orders"
    ∷ []

abbrev log_of : Outcome → ArrowWal
log_of (Outcome.ok w) = w
log_of (Outcome.err w) = w

abbrev log_left : ArrowWal
unfolding run
log_left = log_of (run numbers logged_ops new_log)

recover-run_example :
    (m : HashMap (List ℕ)) × (recover numbers log_left.dir ≡ some m)
    × ((t : String) → batches_of numbers (get m t) ≡ logged numbers logged_ops (nothing numbers) t)
recover-run_example =
    recover-run numbers logged_ops log_left ((λ t. refl), tt) (omega arith) (unfold run in refl)

-- A table is the list of its batches; `accepts` is the constraint check.
abbrev tables_of : (List ℕ → Bool) → Bool → Env
tables_of accepts writes = record {
  ipc = numbers;
  num_rows = λ b. 1;
  memory_size = λ b. 8;
  World = String → List ℕ;
  Merges = Unit;
  validate = λ phase table columns xs c w. (w, if accepts xs then some tt else none);
  write = λ tmp table columns xs c w. ((λ t. if str_eq table t then w t ++ xs else w t), writes);
  merge = λ merges w. w;
  refresh = λ table c w. (c, w, true);
  compact = λ table c w. (c, w, true);
  analyze = λ table c w. (c, w);
}

append_no_rows : (c xs : List ℕ) → total (λ (b : ℕ). 1) xs ≡ 0 → c ++ xs ≡ c
append_no_rows c [] h = append-nil c
append_no_rows c (x ∷ xs) h = absurd (omega (arith, h))

abbrev sound : (accepts : List ℕ → Bool) (writes : Bool) → Sound (tables_of accepts writes)
sound accepts writes = record {
  Content = List ℕ;
  content = λ w t. w t;
  put = λ c columns xs. c ++ xs;
  put-append = λ c columns xs ys. append_assoc c xs ys;
  put_empty = λ c columns xs h. append_no_rows c xs h;
  content-write = λ tmp table columns xs c w h. rw ((str_eq_iff table table).1 refl) refl;
  content-write_other = λ tmp table columns xs c w t ne. ground (arith, str_eq_iff table t, ne);
  content-validate = λ phase table columns xs c w t. refl;
  content-merge = λ merges w t. refl;
  content-refresh = λ table c w t. refl;
  content-compact = λ table c w t. refl;
  tables-refresh = λ table c w t h. h;
  tables-compact = λ table c w t h. h;
}

abbrev at_work : Env
at_work = tables_of (λ xs. true) true

abbrev empty_db : (e : Env) → e.World → Db e
empty_db e world = record {
  catalog = small;
  world = world;
  arrow_wal = some new_log;
  replaying_wal = false;
  write_buffer = [];
  row_threshold = 3;
  byte_threshold = 1000;
  time_threshold = 1000;
  temp_table_counter = 0;
  rows_since_analyze = [];
  auto_analyze_threshold_rows = 2;
  pending_analyze_tables = [];
}

abbrev nothing_stored : String → List ℕ
nothing_stored t = []

abbrev moment : Moment
moment = record { faults = fine; now = 5; later = 6 }

abbrev statements : List (Statement at_work)
statements =
    insert_into moment "users" (1 ∷ 2 ∷ [])
    ∷ insert_into moment "users" (3 ∷ [])
    ∷ insert_into moment "users" (4 ∷ [])
    ∷ []

abbrev db_of : {e : Env} {A : Type 0} → Reply e A → Db e
db_of (done a d) = d
db_of (failed d) = d

abbrev log_of_db : {e : Env} → Db e → ArrowWal
log_of_db d = elim d.arrow_wal [ none ↦ new_log | some w ↦ w ]

abbrev before_stop : Db at_work
unfolding execute_all
before_stop = db_of (execute_all statements (empty_db at_work nothing_stored))

abbrev after_query : Db at_work
unfolding flush_buffered_for_sql
after_query = db_of (flush_buffered_for_sql at_work fine (str_eq "users") before_stop)

flush_buffered_for_sql-inserted_example :
    after_query.world "users" ≡ inserted (sound (λ xs. true) true) statements nothing_stored "users"
unfolding append checkpoint_table before_stop
flush_buffered_for_sql-inserted_example =
    flush_buffered_for_sql-inserted (sound (λ xs. true) true) statements
      (empty_db at_work nothing_stored) before_stop after_query fine (str_eq "users") 1 "users"
      (refl, refl, refl) (omega arith) (unfold execute_all in refl)
      (unfold flush_buffered_for_sql in refl) refl

-- The rows are there, each once.
rows_of_query : after_query.world "users" ≡ 1 ∷ 2 ∷ 3 ∷ 4 ∷ []
unfolding after_query before_stop append checkpoint_table
rows_of_query = refl

-- The process stops with the last row in the buffer, and starts again.
abbrev after_start : Db at_work
unfolding recover_arrow before_stop
after_start =
    db_of (
      recover_arrow at_work moment (log_of_db before_stop).dir (empty_db at_work before_stop.world))

recover_arrow-inserted_example :
    after_start.world "users" ≡ inserted (sound (λ xs. true) true) statements nothing_stored "users"
unfolding append checkpoint_table before_stop after_start get is_arrow file_name zero_padded
recover_arrow-inserted_example =
    recover_arrow-inserted (sound (λ xs. true) true) statements (empty_db at_work nothing_stored)
      before_stop (empty_db at_work before_stop.world) after_start (log_of_db before_stop) moment
      (refl, refl, refl) (omega arith) (unfold execute_all in refl) refl refl (λ t. refl)
      (λ t h. ground (arith, h)) (unfold recover_arrow in refl) "users"

-- Batches with a 9 are refused, and tables cannot be written.
abbrev broken : Env
broken = tables_of (λ xs. not (any (λ x. x == 9) xs)) false

abbrev one_buffered : Db broken
unfolding buffer_insert_batches
one_buffered =
    db_of
      (buffer_insert_batches broken moment "users" none (1 ∷ []) (empty_db broken nothing_stored))

abbrev flush_failed : Db broken
unfolding flush_table one_buffered
flush_failed = db_of (flush_table broken fine "users" one_buffered)

flush_table_failed_example : get flush_failed.write_buffer "users" ≡ none
unfolding append flush_failed one_buffered
flush_table_failed_example =
    flush_table_failed fine "users" one_buffered flush_failed "users" (unfold flush_table in refl)

abbrev unwritable : Moment
unwritable = record { faults = record fine { created = false }; now = 7; later = 8 }

buffer_insert_batches_unlogged_example :
    (d1 : Db broken) × (buffer_insert_batches broken unwritable "users" none (2 ∷ []) one_buffered
      ≡ failed d1)
    × (buffered d1.write_buffer "users" ≡ buffered one_buffered.write_buffer "users" ++ 2 ∷ [])
unfolding append one_buffered get
buffer_insert_batches_unlogged_example =
    buffer_insert_batches_unlogged unwritable "users" (2 ∷ []) one_buffered nothing_stored tt
      (log_of_db one_buffered)
      (log_of (append numbers unwritable.faults 7 "users" (2 ∷ []) (log_of_db one_buffered)))
      (omega arith) (λ entry h. ground (arith, h)) refl refl refl (unfold append in refl)

-- CHECKPOINT contains "POINT".
abbrev point_and_users : Db at_work
unfolding execute_all
point_and_users = db_of (
    execute_all (insert_into moment "users" (1 ∷ []) ∷ insert_into moment "point" (2 ∷ []) ∷ [])
      (empty_db at_work nothing_stored))

abbrev checkpointed : Db at_work
unfolding checkpoint_statement point_and_users
checkpointed = db_of (checkpoint_statement at_work fine (str_eq "point") point_and_users)

checkpoint_statement-lost_example :
    (get checkpointed.write_buffer "users" ≡ get point_and_users.write_buffer "users")
    × (recover_arrow at_work moment
          (log_of_db checkpointed).dir
          (empty_db at_work checkpointed.world)
        ≡ done tt (empty_db at_work checkpointed.world))
unfolding append checkpoint_table checkpoint_all point_and_users checkpointed
checkpoint_statement-lost_example =
    checkpoint_statement-lost fine (str_eq "point") point_and_users checkpointed
      (empty_db at_work checkpointed.world) "users" (log_of_db checkpointed) moment refl refl
      (unfold checkpoint_statement in refl) refl

-- The file of number 1000000 comes before that of number 999999.
names_out_of_order : le_bytes (file_name 1000000) (file_name 999999) ≡ true
unfolding le_bytes file_name zero_padded
names_out_of_order = refl
