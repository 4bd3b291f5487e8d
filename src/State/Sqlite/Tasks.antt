-- ===== src/State/Sqlite/Tasks.antt =====
-- state/sqlite.py: the methods on tasks. Each runs in one transaction.
use fine_tune_harness.Base.{
  ℕ, ◌+◌, String, Bool, false, not, ◌&&◌, ◌||◌, Option, none, some, List, [], ◌∷◌, ◌++◌, ◌==◌,
  if◌then◌else◌, nat_eq,
}
use fine_tune_harness.Effects.{return, raise, key_error, Exec, pure, throw, gets, lift, ◌>>=◌, ◌>>◌}
use fine_tune_harness.State.Value.{Fields, end, field, str}
use fine_tune_harness.State.Models.{TaskStatus, leased, running, TaskRecord}
use fine_tune_harness.State.Leases.{from_seconds}
use fine_tune_harness.State.Memory.{
  Stamp, new_event, optional_str, tasks_of_run, sort_by_key, first_such, is_leaseable,
}
use fine_tune_harness.State.Sqlite.{
  Database, dumps, integrity_error, transaction, expect_one, task_row, update_rows, has_run,
  has_task, insert_event,
}
use fine_tune_harness.Orchestrator.Lifecycle.{ensure_task_transition, task_is}

-- A text that may be NULL.
unfoldable pub dumps_optional : Option Fields → Option Fields
unfolding dumps
dumps_optional none = none
dumps_optional (some fields) = some (dumps fields)

-- UNIQUE(run_id, task_key)
unfoldable pub has_key_in_run : (run_id task_key : String) → List TaskRecord → Bool
has_key_in_run run_id task_key [] = false
has_key_in_run run_id task_key (t ∷ ts) =
    (t.run_id == run_id && t.task_key == task_key) || has_key_in_run run_id task_key ts

unfoldable pub row_of_task : TaskRecord → TaskRecord
unfolding dumps dumps_optional
row_of_task task = record task { payload = dumps task.payload; result = dumps_optional task.result }

unfoldable pub create_task : TaskRecord → Exec Database (Unit {0})
unfolding has_task has_key_in_run has_run row_of_task
create_task task db =
    if not (has_task task.task_id db.tasks)
      && (not (has_key_in_run task.run_id task.task_key db.tasks) && has_run task.run_id db.runs)
    then (return tt, record db { tasks = db.tasks ++ row_of_task task ∷ [] })
    else (raise integrity_error, db)

-- A row that a statement selected; KeyError if there was none.
unfoldable pub expect_row : Option TaskRecord → Exec Database TaskRecord
expect_row none = throw key_error
expect_row (some row) = pure row

unfoldable pub set_outcome : TaskStatus → Option Fields → Option String → TaskRecord → TaskRecord
unfolding dumps_optional
set_outcome status result error row = record row {
  status = status;
  result = dumps_optional result;
  error = error;
  lease_owner = none;
  leased_until = none;
}

unfoldable pub update_task_status :
    String → TaskStatus → Option Fields → Option String → Exec Database (Unit {0})
unfolding transaction task_row expect_row update_rows set_outcome expect_one
update_task_status task_id status result error = transaction (do
  selected ← gets (λ db. task_row task_id db.tasks)
  row ← expect_row selected
  lift (ensure_task_transition row.status status)
  rowcount ← update_rows task_id (set_outcome status result error)
  expect_one rowcount)

-- ORDER BY task_key compares texts by their bytes, which is their order by code point.
unfoldable pub list_tasks : String → Database → List TaskRecord
list_tasks run_id db = sort_by_key (tasks_of_run run_id db.tasks)

unfoldable pub set_lease : String → ℕ → TaskRecord → TaskRecord
set_lease worker_id until row = record row {
  status = leased;
  lease_owner = some worker_id;
  leased_until = some until;
}

-- The event of a lease that had expired.
unfoldable pub note_expired :
    Stamp → (run_id worker_id : String) → TaskRecord → Exec Database (Unit {0})
unfolding insert_event
note_expired stamp run_id worker_id row = insert_event (
    new_event stamp run_id (some row.task_id) "lease_expired" (
      dumps (
        field "previous_owner" (optional_str row.lease_owner)
          (field "reclaimed_by" (str worker_id) end))))

-- The row that was selected, leased to the worker.
unfoldable pub lease_row :
    Stamp
    → (run_id worker_id : String) → (until : ℕ) → TaskRecord
    → Exec Database (Option TaskRecord)
unfolding update_rows set_lease note_expired
lease_row stamp run_id worker_id until row = do
  rowcount ← update_rows row.task_id (set_lease worker_id until)
  if not (nat_eq rowcount 1)
      then pure none
      else (if task_is row.status leased then note_expired stamp run_id worker_id row else pure tt)
        >> pure (some (set_lease worker_id until row))

-- The rows of the run in the order of their keys, the first of them that is PENDING or has an expired
-- lease (WHERE … ORDER BY task_key LIMIT 1).
unfoldable pub lease_selected :
    Stamp
    → (run_id worker_id : String) → (until : ℕ) → Option TaskRecord
    → Exec Database (Option TaskRecord)
unfolding lease_row
lease_selected stamp run_id worker_id until none = pure none
lease_selected stamp run_id worker_id until (some row) = lease_row stamp run_id worker_id until row

unfoldable pub lease_next_pending_task :
    (now lease_now : ℕ) (stamp : Stamp) (run_id worker_id : String) (lease_seconds : ℕ)
    → Exec Database (Option TaskRecord)
unfolding transaction lease_selected list_tasks
lease_next_pending_task now lease_now stamp run_id worker_id lease_seconds = transaction (do
  selected ← gets (λ db. first_such (is_leaseable now) (list_tasks run_id db))
  lease_selected stamp run_id worker_id
      (from_seconds lease_now worker_id lease_seconds).leased_until selected)

-- UPDATE … WHERE task_id = ? AND status = ?
unfoldable pub set_running : TaskRecord → TaskRecord
set_running row = if task_is row.status leased then record row { status = running } else row

unfoldable pub count_leased : String → List TaskRecord → ℕ
count_leased task_id [] = 0
count_leased task_id (t ∷ ts) =
    (if t.task_id == task_id && task_is t.status leased then 1 else 0) + count_leased task_id ts

unfoldable pub mark_task_running : String → Exec Database (Unit {0})
unfolding transaction update_rows set_running count_leased expect_one
mark_task_running task_id = transaction (do
  rowcount ← gets (λ db. count_leased task_id db.tasks)
  update_rows task_id set_running
  expect_one rowcount)

unfoldable pub add_attempt : TaskRecord → TaskRecord
add_attempt row = record row { attempt_count = row.attempt_count + 1 }

unfoldable pub increment_task_attempts : String → Exec Database ℕ
unfolding transaction update_rows add_attempt expect_one task_row expect_row
increment_task_attempts task_id = transaction (do
  rowcount ← update_rows task_id add_attempt
  expect_one rowcount
  selected ← gets (λ db. task_row task_id db.tasks)
  row ← expect_row selected
  pure row.attempt_count)
