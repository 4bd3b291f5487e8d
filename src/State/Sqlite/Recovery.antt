-- ===== src/State/Sqlite/Recovery.antt =====
-- state/sqlite.py: the recovery of leases and of tasks that a dead worker held, and the events and
-- artifacts.
use fine_tune_harness.Base.{
  ℕ, ◌+◌, String, Bool, false, not, ◌&&◌, ◌||◌, Option, none, some, List, [], ◌∷◌, ◌++◌, ◌==◌,
  if◌then◌else◌, leb,
}
use fine_tune_harness.Base.Int.{pos}
use fine_tune_harness.Effects.{return, raise, Exec, pure, gets, ◌>>=◌, ◌>>◌}
use fine_tune_harness.State.Value.{end, field, str, int}
use fine_tune_harness.State.Models.{failed, TaskRecord, EventRecord, ArtifactRecord}
use fine_tune_harness.State.Memory.{Stamp, new_event, optional_str, has_expired_lease, first_such}
use fine_tune_harness.State.Memory.Recovery.{
  unleased, is_held, count_events, events_of_run, artifacts_of_run, Reclaim, nothing_held,
  abandoned, requeued,
}
use fine_tune_harness.State.Sqlite.{
  Database, dumps, integrity_error, transaction, update_rows, has_run, refers, insert_event,
}

-- The condition of both statements of requeue_expired_leases.
unfoldable pub is_expired_in : (now : ℕ) → (run_id : String) → TaskRecord → Bool
is_expired_in now run_id row = row.run_id == run_id && has_expired_lease now row

unfoldable pub expired_rows : (now : ℕ) → (run_id : String) → List TaskRecord → List TaskRecord
unfolding is_expired_in
expired_rows now run_id [] = []
expired_rows now run_id (t ∷ ts) =
    let rest = expired_rows now run_id ts in if is_expired_in now run_id t then t ∷ rest else rest

-- UPDATE … of every row that meets the condition.
unfoldable pub requeue_rows : (now : ℕ) → (run_id : String) → List TaskRecord → List TaskRecord
unfolding is_expired_in unleased
requeue_rows now run_id [] = []
requeue_rows now run_id (t ∷ ts) =
    (if is_expired_in now run_id t then unleased t else t) ∷ requeue_rows now run_id ts

-- One event for each expired lease; the n-th takes the n-th stamp. It gives their number.
unfoldable pub note_requeued :
    (stamps : ℕ → Stamp) (run_id : String) (count : ℕ) → List TaskRecord → Exec Database ℕ
unfolding insert_event
note_requeued stamps run_id count [] = pure count
note_requeued stamps run_id count (t ∷ ts) = do
  insert_event (
      new_event (stamps count) run_id (some t.task_id) "lease_expired"
        (dumps (field "previous_owner" (optional_str t.lease_owner) end)))
  note_requeued stamps run_id (count + 1) ts

unfoldable pub requeue_selected :
    (now : ℕ) (stamps : ℕ → Stamp) (run_id : String) → List TaskRecord → Exec Database ℕ
unfolding requeue_rows note_requeued
requeue_selected now stamps run_id [] db = (return 0, db)
requeue_selected now stamps run_id (t ∷ ts) db =
    note_requeued stamps run_id 0 (t ∷ ts) (record db { tasks = requeue_rows now run_id db.tasks })

unfoldable pub requeue_expired_leases :
    (now : ℕ) (stamps : ℕ → Stamp) (run_id : String) → Exec Database ℕ
unfolding transaction expired_rows requeue_selected
requeue_expired_leases now stamps run_id = transaction (do
  expired ← gets (λ db. expired_rows now run_id db.tasks)
  requeue_selected now stamps run_id expired)

unfoldable pub set_abandoned : TaskRecord → TaskRecord
set_abandoned row = record row {
  status = failed;
  lease_owner = none;
  leased_until = none;
  error = some "worker died without reporting";
}

unfoldable pub note_reclaim :
    Stamp
    → (run_id worker_id : String) → (prior : ℕ) → TaskRecord
    → (kind : String) → Exec Database (Unit {0})
unfolding insert_event
note_reclaim stamp run_id worker_id prior row kind = insert_event (
    new_event stamp run_id (some row.task_id) kind
      (dumps (field "dead_worker" (str worker_id) (field "prior_reclaims" (int (pos prior)) end))))

unfoldable pub reclaim_row :
    Stamp
    → (run_id worker_id : String) → (max_reclaims : ℕ) → TaskRecord
    → (prior : ℕ) → Exec Database Reclaim
unfolding update_rows set_abandoned unleased note_reclaim
reclaim_row stamp run_id worker_id max_reclaims row prior =
    if leb max_reclaims prior
    then update_rows row.task_id set_abandoned
      >> (note_reclaim stamp run_id worker_id prior row "task_abandoned" >> pure abandoned)
    else update_rows row.task_id unleased
      >> (note_reclaim stamp run_id worker_id prior row "lease_reclaimed" >> pure requeued)

unfoldable pub reclaim_selected :
    Stamp
    → (run_id worker_id : String) → (max_reclaims : ℕ) → Option TaskRecord
    → Exec Database Reclaim
unfolding reclaim_row
reclaim_selected stamp run_id worker_id max_reclaims none = pure nothing_held
reclaim_selected stamp run_id worker_id max_reclaims (some row) = do
  prior ← gets (λ db. count_events row.task_id "lease_reclaimed" db.events)
  reclaim_row stamp run_id worker_id max_reclaims row prior

-- LIMIT 1 without an order: of several rows the first in the order of their ids is taken, as a scan of
-- the table or of its index by run gives it.
unfoldable pub reclaim_dead_worker :
    (stamp : Stamp) (run_id worker_id : String) (max_reclaims : ℕ) → Exec Database Reclaim
unfolding transaction reclaim_selected
reclaim_dead_worker stamp run_id worker_id max_reclaims = transaction (do
  selected ← gets (λ db. first_such (is_held run_id worker_id) db.tasks)
  reclaim_selected stamp run_id worker_id max_reclaims selected)

unfoldable pub append_event : EventRecord → Exec Database (Unit {0})
unfolding transaction insert_event dumps
append_event event = transaction (insert_event (record event { payload = dumps event.payload }))

unfoldable pub has_artifact : String → List ArtifactRecord → Bool
has_artifact artifact_id [] = false
has_artifact artifact_id (a ∷ rest) = a.artifact_id == artifact_id || has_artifact artifact_id rest

unfoldable pub create_artifact : ArtifactRecord → Exec Database (Unit {0})
unfolding has_artifact has_run refers
create_artifact artifact db =
    if not (has_artifact artifact.artifact_id db.artifacts)
      && (has_run artifact.run_id db.runs && refers artifact.task_id db.tasks)
    then (return tt, record db { artifacts = db.artifacts ++ artifact ∷ [] })
    else (raise integrity_error, db)

unfoldable pub list_artifacts : String → Database → List ArtifactRecord
unfolding artifacts_of_run
list_artifacts run_id db = artifacts_of_run run_id db.artifacts

unfoldable pub list_events : String → Database → List EventRecord
unfolding events_of_run
list_events run_id db = events_of_run run_id db.events
