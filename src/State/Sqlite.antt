-- ===== src/State/Sqlite.antt =====
-- state/sqlite.py: the persistent store. A table is the list of its rows in the order of their row
-- ids. A JSON column is held as the dictionary that its text denotes, whose keys `sort_keys=True` puts
-- in order; a status as the status whose value the column has; a time as a number. A row of the tables
-- of tasks, events and artifacts then has the fields of the record that is read from it. The schema's
-- creation and migration are not modelled: the tables have all their columns.
pub mod Runs
pub mod Tasks
pub mod Recovery
pub mod Refines
use fine_tune_harness.Base.{
  ℕ, zero, suc, ◌+◌, String, Bool, true, false, not, ◌&&◌, ◌||◌, Option, none, some, List, [], ◌∷◌,
  ◌++◌, ◌==◌, if◌then◌else◌, nat_eq, Dict,
}
use fine_tune_harness.Base.Int.{ℤ}
use fine_tune_harness.Effects.{
  Exception, raised, key_error, Result, return, raise, Exec, pure, throw,
}
use fine_tune_harness.State.Value.{
  Value, null, bool, int, float, str, list, dict, Items, nil, cons, Fields, end, field,
}
use fine_tune_harness.State.Models.{RunStatus, RunRecord, TaskRecord, EventRecord, ArtifactRecord}
use Prim.Native.String.{compare}
use text.Mathlib.Text.{is_lt}

-- `sort_keys=True`: the keys of a dictionary in order, at every depth.
unfoldable pub insert_field : String → Value → Fields → Fields
insert_field k v end = field k v end
insert_field k v (field j w fs) =
    let later = insert_field k v fs in
    if is_lt (compare j k) then field j w later else field k v (field j w fs)

unfoldable mutual
  unfolding insert_field

  pub sort_value : Value → Value
  sort_value (list xs) = list (sort_items xs)
  sort_value (dict fs) = dict (dumps fs)
  sort_value null = null
  sort_value (bool b) = bool b
  sort_value (int n) = int n
  sort_value (float x) = float x
  sort_value (str s) = str s

  pub sort_items : Items → Items
  sort_items nil = nil
  sort_items (cons v vs) = cons (sort_value v) (sort_items vs)

  -- What `json.loads` reads of the text that `json.dumps(…, sort_keys=True)` writes.
  pub dumps : Fields → Fields
  dumps end = end
  dumps (field k v fs) = insert_field k (sort_value v) (dumps fs)

pub record RunRow : Type 0 where
  pub run_id : String
  pub name : String
  pub status : RunStatus
  pub config_json : Fields
  pub created_at : Option ℕ
  pub env_snapshot_json : Option Fields
  pub finished_at : Option ℕ
  pub seed : Option ℤ
  pub dataset_hashes_json : Option Fields
  pub config_hash : Option String

pub record Database : Type 0 where
  pub runs : List RunRow
  pub tasks : List TaskRecord
  pub events : List EventRecord
  pub artifacts : List ArtifactRecord

-- What a violated constraint raises.
abbrev pub integrity_error : Exception
integrity_error = raised "IntegrityError" "constraint failed"

-- The rows after a body that began with the first database.
unfoldable pub settle : {A : Type 0} → Database → Result A × Database → Result A × Database
settle before (raise e, after) = (raise e, before)
settle before (return a, after) = (return a, after)

-- `with conn`: commits, or rolls back when the body raises.
unfoldable pub transaction : {A : Type 0} → Exec Database A → Exec Database A
unfolding settle
transaction body db = settle db (body db)

-- `if cur.rowcount != 1: raise KeyError(…)`
unfoldable pub expect_one : ℕ → Exec Database (Unit {0})
expect_one rowcount = if nat_eq rowcount 1 then pure tt else throw key_error

-- SELECT … FROM tasks WHERE task_id = ?
unfoldable pub task_row : String → List TaskRecord → Option TaskRecord
task_row task_id [] = none
task_row task_id (t ∷ ts) = if t.task_id == task_id then some t else task_row task_id ts

-- UPDATE tasks SET … WHERE task_id = ?
unfoldable pub set_rows : String → (TaskRecord → TaskRecord) → List TaskRecord → List TaskRecord
set_rows task_id change [] = []
set_rows task_id change (t ∷ ts) =
    (if t.task_id == task_id then change t else t) ∷ set_rows task_id change ts

-- How many rows the statement changed.
unfoldable pub count_rows : String → List TaskRecord → ℕ
count_rows task_id [] = 0
count_rows task_id (t ∷ ts) = (if t.task_id == task_id then 1 else 0) + count_rows task_id ts

unfoldable pub update_rows : String → (TaskRecord → TaskRecord) → Exec Database ℕ
unfolding set_rows count_rows
update_rows task_id change db =
    (return (count_rows task_id db.tasks), record db { tasks = set_rows task_id change db.tasks })

unfoldable pub has_run : String → List RunRow → Bool
has_run run_id [] = false
has_run run_id (r ∷ rs) = r.run_id == run_id || has_run run_id rs

unfoldable pub has_task : String → List TaskRecord → Bool
has_task task_id [] = false
has_task task_id (t ∷ ts) = t.task_id == task_id || has_task task_id ts

unfoldable pub has_event : String → List EventRecord → Bool
has_event event_id [] = false
has_event event_id (e ∷ es) = e.event_id == event_id || has_event event_id es

-- A foreign key that may be NULL.
unfoldable pub refers : Option String → List TaskRecord → Bool
unfolding has_task
refers none ts = true
refers (some task_id) ts = has_task task_id ts

-- INSERT INTO events: the primary key is new, and both foreign keys refer to rows.
unfoldable pub insert_event : EventRecord → Exec Database (Unit {0})
unfolding has_event has_run refers
insert_event e db =
    if not (has_event e.event_id db.events)
      && (has_run e.run_id db.runs && refers e.task_id db.tasks)
    then (return tt, record db { events = db.events ++ e ∷ [] })
    else (raise integrity_error, db)
