-- ===== src/State/Sqlite/Runs.antt =====
-- state/sqlite.py: the methods on runs, and what a run that is read back is.
use fine_tune_harness.Base.{
  ℕ, ◌+◌, String, Bool, true, false, Option, none, some, List, [], ◌∷◌, ◌++◌, map, ◌==◌,
  if◌then◌else◌, ltb, ◌≡◌, refl, ap, arith, eq_iff,
}
use fine_tune_harness.Base.Int.{ℤ, pos, negsuc}
use fine_tune_harness.Effects.{overflow_error, raised, Result, return, raise, Exec}
use fine_tune_harness.State.Value.{Value, null, bool, int, Fields, end, field}
use fine_tune_harness.State.Models.{RunStatus, RunRecord}
use fine_tune_harness.State.Sqlite.{
  RunRow, Database, dumps, integrity_error, transaction, expect_one, has_run,
}

-- The value of the column `seed`: an INTEGER has 64 bits. A seed that is no integer is refused here;
-- the checks of a configuration admit none.
unfoldable pub bind_int : ℤ → Result (Option ℤ)
bind_int (pos n) = if ltb n 9223372036854775808 then return (some (pos n)) else raise overflow_error
bind_int (negsuc n) =
    if ltb n 9223372036854775808 then return (some (negsuc n)) else raise overflow_error

unfoldable pub bind_seed : Option Value → Result (Option ℤ)
unfolding bind_int
bind_seed none = return none
bind_seed (some null) = return none
bind_seed (some (int n)) = bind_int n
bind_seed (some (bool b)) = return (some (pos (if b then 1 else 0)))
bind_seed (some _) = raise (raised "ProgrammingError" "type is not supported")

-- `json.dumps(d, sort_keys=True) if d else None`
unfoldable pub dumps_non_empty : Fields → Option Fields
unfolding dumps
dumps_non_empty end = none
dumps_non_empty (field k v fs) = some (dumps (field k v fs))

unfoldable pub row_of_run : RunRecord → Option ℤ → RunRow
unfolding dumps dumps_non_empty
row_of_run run seed = record {
  run_id = run.run_id;
  name = run.name;
  status = run.status;
  config_json = dumps run.config;
  created_at = some run.created_at;
  env_snapshot_json = dumps_non_empty run.env_snapshot;
  finished_at = run.finished_at;
  seed = seed;
  dataset_hashes_json = dumps_non_empty run.dataset_hashes;
  config_hash = run.config_hash;
}

unfoldable pub insert_run : RunRecord → Result (Option ℤ) → Exec Database (Unit {0})
unfolding row_of_run has_run
insert_run run (raise e) db = (raise e, db)
insert_run run (return seed) db =
    if has_run run.run_id db.runs
    then (raise integrity_error, db)
    else (return tt, record db { runs = db.runs ++ row_of_run run seed ∷ [] })

unfoldable pub create_run : RunRecord → Exec Database (Unit {0})
unfolding bind_seed insert_run
create_run run = insert_run run (bind_seed run.seed)

unfoldable pub set_runs : String → (RunRow → RunRow) → List RunRow → List RunRow
set_runs run_id change [] = []
set_runs run_id change (r ∷ rs) =
    (if r.run_id == run_id then change r else r) ∷ set_runs run_id change rs

unfoldable pub count_runs : String → List RunRow → ℕ
count_runs run_id [] = 0
count_runs run_id (r ∷ rs) = (if r.run_id == run_id then 1 else 0) + count_runs run_id rs

unfoldable pub update_run : String → (RunRow → RunRow) → Exec Database (Unit {0})
unfolding transaction set_runs count_runs expect_one
update_run run_id change = transaction (λ db.
    expect_one (count_runs run_id db.runs) (record db { runs = set_runs run_id change db.runs }))

unfoldable pub update_run_finished_at : String → ℕ → Exec Database (Unit {0})
unfolding update_run
update_run_finished_at run_id finished_at =
    update_run run_id (λ row. record row { finished_at = some finished_at })

unfoldable pub update_run_status : String → RunStatus → Exec Database (Unit {0})
unfolding update_run
update_run_status run_id status = update_run run_id (λ row. record row { status = status })

unfoldable pub loads_or_empty : Option Fields → Fields
loads_or_empty none = end
loads_or_empty (some fields) = fields

unfoldable pub seed_of_row : Option ℤ → Option Value
seed_of_row none = none
seed_of_row (some n) = some (int n)

-- `_row_to_run`: a row without a time of creation gets the present time.
unfoldable pub row_to_run : (now : ℕ) → RunRow → RunRecord
unfolding loads_or_empty seed_of_row
row_to_run now row = record {
  run_id = row.run_id;
  name = row.name;
  status = row.status;
  config = row.config_json;
  created_at = elim row.created_at [ none ↦ now | some at ↦ at ];
  env_snapshot = loads_or_empty row.env_snapshot_json;
  finished_at = row.finished_at;
  seed = seed_of_row row.seed;
  dataset_hashes = loads_or_empty row.dataset_hashes_json;
  config_hash = row.config_hash;
}

unfoldable pub run_row : String → List RunRow → Option RunRow
run_row run_id [] = none
run_row run_id (r ∷ rs) = if r.run_id == run_id then some r else run_row run_id rs

unfoldable pub get_run : (now : ℕ) → String → Database → Option RunRecord
unfolding run_row row_to_run
get_run now run_id db = elim (run_row run_id db.runs) [
  | none ↦ none
  | some row ↦ some (row_to_run now row)
]

unfoldable pub list_runs : (now : ℕ) → Database → List RunRecord
unfolding row_to_run
list_runs now db = map (row_to_run now) db.runs

-- The run with the keys of its dictionaries in order.
abbrev pub canonical_run : RunRecord → RunRecord
canonical_run run = record run {
  config = dumps run.config;
  env_snapshot = dumps run.env_snapshot;
  dataset_hashes = dumps run.dataset_hashes;
}

abbrev pub fits_64 : ℤ → Bool
fits_64 (pos n) = ltb n 9223372036854775808
fits_64 (negsuc n) = ltb n 9223372036854775808

appended-lem :
    (id : String) (rs : List RunRow) (r : RunRow)
    → has_run id rs ≡ false
    → r.run_id ≡ id
    → run_row id (rs ++ r ∷ []) ≡ some r
unfolding has_run run_row
appended-lem id [] r h e = ground (arith, eq_iff r.run_id id)
appended-lem id (x ∷ rs) r h e = ground (arith, appended-lem id rs r)

empty-lem : (fields : Fields) → loads_or_empty (dumps_non_empty fields) ≡ dumps fields
unfolding loads_or_empty dumps_non_empty dumps
empty-lem end = refl
empty-lem (field k v fs) = refl

bind-lem : (n : ℤ) → fits_64 n ≡ true → bind_int n ≡ return (some n)
unfolding bind_int
bind-lem (pos n) h = rw h refl
bind-lem (negsuc n) h = rw h refl

created-lem :
    (run : RunRecord) (n : ℤ) (db : Database)
    → run.seed ≡ some (int n)
    → fits_64 n ≡ true
    → has_run run.run_id db.runs ≡ false
    → create_run run db ≡ (return tt, record db { runs = db.runs ++ row_of_run run (some n) ∷ [] })
unfolding create_run bind_seed insert_run
created-lem run n db seeded fits new = rw (seeded, bind-lem n fits, new) refl

read-lem :
    (now : ℕ) (run : RunRecord) (n : ℤ)
    → run.seed ≡ some (int n)
    → row_to_run now (row_of_run run (some n)) ≡ canonical_run run
unfolding row_to_run row_of_run seed_of_row
read-lem now run n seeded = ground (arith, empty-lem run.env_snapshot, empty-lem run.dataset_hashes)

-- A run with a new id and a seed of 64 bits is stored, and read back as it was, the keys of its
-- dictionaries in order.
pub get_run-create_run :
    (now : ℕ) (run : RunRecord) (n : ℤ) (db : Database)
    → run.seed ≡ some (int n)
    → fits_64 n ≡ true
    → has_run run.run_id db.runs ≡ false
    → ((create_run run db).0 ≡ return tt)
      × (get_run now run.run_id (create_run run db).1 ≡ some (canonical_run run))
unfolding get_run row_of_run
get_run-create_run now run n db seeded fits new =
    rw
      (
        created-lem run n db seeded fits new,
        appended-lem run.run_id db.runs (row_of_run run (some n)) new refl,
        get_run,
      )
      (refl, ap some (read-lem now run n seeded))
