-- ===== src/State/Sqlite/Refines/Calls.antt =====
-- state/sqlite.py against state/memory_store.py: sequences of the calls that the worker and the runner
-- make.
use fine_tune_harness.Base.{ℕ, String, true, false, Option, List, [], ◌∷◌, ◌≡◌, refl, inl, inr}
use fine_tune_harness.Effects.{Result, Exec, Result-cases, pure, ◌>>=◌}
use fine_tune_harness.State.Models.{RunStatus, TaskStatus, TaskRecord, EventRecord, ArtifactRecord}
use fine_tune_harness.State.Value.{Fields}
use fine_tune_harness.State.Memory
use fine_tune_harness.State.Memory.Recovery.{Reclaim}
use fine_tune_harness.State.Memory.{Store, Stamp}
use fine_tune_harness.State.Sqlite.{Database, dumps, has_event, has_run, has_task, refers}
use fine_tune_harness.State.Sqlite.Runs
use fine_tune_harness.State.Sqlite.Recovery
use fine_tune_harness.State.Sqlite.Tasks
use fine_tune_harness.State.Sqlite.Recovery.{reclaim_dead_worker}
use fine_tune_harness.State.Sqlite.Refines.RunRows.{
  update_run_status_refines, update_run_finished_at_refines,
}
use fine_tune_harness.State.Sqlite.Refines.Records.{
  effect, append_event_refines, create_artifact_refines,
}
use fine_tune_harness.State.Sqlite.Refines.TaskRows.{create_task_refines}
use fine_tune_harness.State.Sqlite.Refines.Reclaims.{reclaim_dead_worker_refines}
use fine_tune_harness.State.Sqlite.Tasks.{dumps_optional}
use fine_tune_harness.State.Sqlite.Refines.{abstract}
use fine_tune_harness.State.Sqlite.Refines.Steps.{
  IsConsistent, Simulates, update_task_status_refines, mark_task_running_refines,
  increment_task_attempts_refines,
}
use fine_tune_harness.State.Sqlite.Refines.Leases.{total, lease_next_pending_task_refines}

-- A call of the store (state/store.py), with what it reads of the clock.
pub data Call : Type 0 where
  set_status : String → TaskStatus → Option Fields → Option String → Call
  mark_running : String → Call
  count_attempt : String → Call
  lease : (now lease_now : ℕ) → Stamp → (run_id worker_id : String) → (lease_seconds : ℕ) → Call
  reclaim : Stamp → (run_id worker_id : String) → (max_reclaims : ℕ) → Call
  set_run_status : String → RunStatus → Call
  set_finished : String → (at : ℕ) → Call
  append : EventRecord → Call
  add_artifact : ArtifactRecord → Call
  add_task : TaskRecord → Call

pub data Reply : Type 0 where
  done : Reply
  attempts : ℕ → Reply
  leased_task : Option TaskRecord → Reply
  reclaimed : Reclaim → Reply

-- The reply to a call, or what it raised.
abbrev pub replying : {S A : Type 0} → (A → Reply) → Exec S A → Exec S Reply
replying f m = m >>= λ a. pure (f a)

unfoldable pub on_store : Call → Exec Store Reply
on_store (set_status id status result error) =
    replying (λ _. done) (Memory.update_task_status id status (dumps_optional result) error)
on_store (mark_running id) = replying (λ _. done) (Memory.mark_task_running id)
on_store (count_attempt id) = replying attempts (Memory.increment_task_attempts id)
on_store (lease now lease_now stamp run_id worker_id seconds) =
    replying leased_task
      (total (Memory.lease_next_pending_task now lease_now stamp run_id worker_id seconds))
on_store (reclaim stamp run_id worker_id max_reclaims) =
    replying reclaimed
      (total (Memory.Recovery.reclaim_dead_worker stamp run_id worker_id max_reclaims))
on_store (set_run_status id status) = replying (λ _. done) (Memory.update_run_status id status)
on_store (set_finished id at) = replying (λ _. done) (Memory.update_run_finished_at id at)
on_store (append event) =
    replying (λ _. done)
      (effect (Memory.append_event (record event { payload = dumps event.payload })))
on_store (add_artifact artifact) =
    replying (λ _. done) (effect (Memory.Recovery.create_artifact artifact))
on_store (add_task task) = replying (λ _. done) (Memory.create_task (Tasks.row_of_task task))

unfoldable pub on_database : Call → Exec Database Reply
on_database (set_status id status result error) =
    replying (λ _. done) (Tasks.update_task_status id status result error)
on_database (mark_running id) = replying (λ _. done) (Tasks.mark_task_running id)
on_database (count_attempt id) = replying attempts (Tasks.increment_task_attempts id)
on_database (lease now lease_now stamp run_id worker_id seconds) =
    replying leased_task
      (Tasks.lease_next_pending_task now lease_now stamp run_id worker_id seconds)
on_database (reclaim stamp run_id worker_id max_reclaims) =
    replying reclaimed (reclaim_dead_worker stamp run_id worker_id max_reclaims)
on_database (set_run_status id status) = replying (λ _. done) (Runs.update_run_status id status)
on_database (set_finished id at) = replying (λ _. done) (Runs.update_run_finished_at id at)
on_database (append event) = replying (λ _. done) (Recovery.append_event event)
on_database (add_artifact artifact) = replying (λ _. done) (Recovery.create_artifact artifact)
on_database (add_task task) = replying (λ _. done) (Tasks.create_task task)

-- The replies to calls one after the other, and the state that they leave. What one call raises does
-- not stop the next.
unfoldable pub replies :
    {S : Type 0} → (Call → Exec S Reply) → List Call → S → List (Result Reply) × S
replies on [] s = ([], s)
replies on (c ∷ cs) s =
    let (reply, s') = on c s in let (rest, last) = replies on cs s' in (reply ∷ rest, last)

-- A lease or a reclaim draws an id that no event has. What is added has a new id and names rows that
-- exist; a task has a key that is new in its run.
abbrev pub IsFresh : Call → Database → Type 0
IsFresh (lease _ _ stamp _ _ _) db = has_event stamp.event_id db.events ≡ false
IsFresh (set_status _ _ _ _) db = Unit
IsFresh (mark_running _) db = Unit
IsFresh (count_attempt _) db = Unit
IsFresh (reclaim stamp _ _ _) db = has_event stamp.event_id db.events ≡ false
IsFresh (set_run_status _ _) db = Unit
IsFresh (set_finished _ _) db = Unit
IsFresh (append event) db =
    (has_event event.event_id db.events ≡ false)
    × ((has_run event.run_id db.runs ≡ true) × (refers event.task_id db.tasks ≡ true))
IsFresh (add_artifact artifact) db =
    (Recovery.has_artifact artifact.artifact_id db.artifacts ≡ false)
    × ((has_run artifact.run_id db.runs ≡ true) × (refers artifact.task_id db.tasks ≡ true))
IsFresh (add_task task) db =
    (has_task task.task_id db.tasks ≡ false)
    × ((Tasks.has_key_in_run task.run_id task.task_key db.tasks ≡ false)
        × (has_run task.run_id db.runs ≡ true))

unfoldable pub AllFresh : List Call → Database → Type 0
AllFresh [] db = Unit
AllFresh (c ∷ cs) db = IsFresh c db × AllFresh cs (on_database c db).1

replying-Simulates :
    {A : Type 0} (f : A → Reply) {now : ℕ} {m : Exec Store A} {method : Exec Database A}
    {db : Database}
    → Simulates now m method db
    → Simulates now (replying f m) (replying f method) db
replying-Simulates f {method = method} {db = db} h = elim (Result-cases (method db).0) [
  | inl (e, raises) ↦ record {
    same = rw (h.same, raises) refl;
    consistent = rw raises h.consistent;
  }
  | inr (a, returns) ↦ record {
    same = rw (h.same, returns) refl;
    consistent = rw returns h.consistent;
  }
]

call_refines :
    (now : ℕ) (c : Call) (db : Database)
    → IsConsistent db.runs db.tasks
    → IsFresh c db
    → Simulates now (on_store c) (on_database c) db
unfolding on_store on_database
call_refines now (set_status id status result error) db valid fresh =
    replying-Simulates (λ _. done) (update_task_status_refines now id db valid status result error)
call_refines now (mark_running id) db valid fresh =
    replying-Simulates (λ _. done) (mark_task_running_refines now id db valid)
call_refines now (count_attempt id) db valid fresh =
    replying-Simulates attempts (increment_task_attempts_refines now id db valid)
call_refines now (lease at lease_now stamp run_id worker_id seconds) db valid fresh =
    replying-Simulates leased_task (
      lease_next_pending_task_refines now at lease_now stamp run_id worker_id seconds db valid
        fresh)
call_refines now (reclaim stamp run_id worker_id max_reclaims) db valid fresh =
    replying-Simulates reclaimed
      (reclaim_dead_worker_refines now stamp run_id worker_id max_reclaims db valid fresh)
call_refines now (set_run_status id status) db valid fresh =
    replying-Simulates (λ _. done) (update_run_status_refines now id db valid status)
call_refines now (set_finished id at) db valid fresh =
    replying-Simulates (λ _. done) (update_run_finished_at_refines now id db valid at)
call_refines now (append event) db valid (new_id, (known_run, known_task)) =
    replying-Simulates (λ _. done)
      (append_event_refines now event db valid new_id known_run known_task)
call_refines now (add_artifact artifact) db valid (new_id, (known_run, known_task)) =
    replying-Simulates (λ _. done)
      (create_artifact_refines now artifact db valid new_id known_run known_task)
call_refines now (add_task task) db valid (new_id, (new_key, known_run)) =
    replying-Simulates (λ _. done) (create_task_refines now task db valid new_id new_key known_run)

-- Every sequence of updates of tasks and of runs, starts, attempts, leases, reclaims, and new
-- tasks, events and artifacts gets the same replies and exceptions from the database as from the
-- store that it stands for, which is handed each dictionary with its keys in order, and leaves a
-- database that stands for the store that is left, as long as the keys hold, each lease and
-- reclaim draws a new event id, and each task, event and artifact that is added has a new id and
-- names rows that exist, the task also a key that is new in its run.
pub replies_refine :
    (now : ℕ) (calls : List Call) (db : Database)
    → IsConsistent db.runs db.tasks
    → AllFresh calls db
    → replies on_store calls (abstract now db)
      ≡ ((replies on_database calls db).0, abstract now (replies on_database calls db).1)
unfolding replies AllFresh
replies_refine now [] db valid fresh = refl
replies_refine now (c ∷ cs) db valid fresh =
    let step = call_refines now c db valid fresh.0 in
    rw (step.same, replies_refine now cs (on_database c db).1 step.consistent fresh.1) refl
