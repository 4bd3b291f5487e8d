-- ===== src/State/Memory.antt =====
-- state/memory_store.py: the store of runs, tasks, events and artifacts. Each method runs under the
-- store's lock, so it is one step. A method that reads the clock or draws event ids takes the
-- readings as arguments.
pub mod Recovery
pub mod Keys
pub mod Moves
pub mod Histories
pub mod Leasing
pub mod Reclaiming
use fine_tune_harness.Base.{
  ℕ, suc, ◌+◌, String, Bool, true, false, not, ◌&&◌, ◌||◌, Option, none, some, List, [], ◌∷◌, ◌++◌,
  ltb, leb, if◌then◌else◌, ◌==◌, Dict, lookup, insert, values, has_key,
}
use fine_tune_harness.Base.Int.{pos}
use fine_tune_harness.Effects.{Result, return, raise, Exec, value_error, key_error, and_then}
use fine_tune_harness.State.Value.{Value, Fields, end, field, null, int, str}
use fine_tune_harness.State.Models.{
  RunStatus, TaskStatus, pending, leased, running, failed, RunRecord, TaskRecord, EventRecord,
  ArtifactRecord,
}
use fine_tune_harness.State.Leases.{from_seconds}
use fine_tune_harness.Orchestrator.Lifecycle.{task_is, ensure_task_transition}
use Prim.Native.String.{compare}
use text.Mathlib.Text.{is_lt}

pub record Store : Type 0 where
  pub runs : Dict RunRecord
  pub tasks : Dict TaskRecord
  pub events : List EventRecord
  pub artifacts : List ArtifactRecord

abbrev pub empty : Store
empty = record { runs = []; tasks = []; events = []; artifacts = [] }

-- What the constructor of an event reads: a fresh id and the time.
pub record Stamp : Type 0 where
  pub event_id : String
  pub created_at : ℕ

unfoldable pub new_event : Stamp → String → Option String → String → Fields → EventRecord
new_event stamp run_id task_id kind payload = record {
  event_id = stamp.event_id;
  run_id = run_id;
  task_id = task_id;
  kind = kind;
  payload = payload;
  created_at = stamp.created_at;
}

-- Text or `None` as a value.
unfoldable pub optional_str : Option String → Value
optional_str none = null
optional_str (some s) = str s

unfoldable pub create_run : RunRecord → Exec Store (Unit {0})
create_run run s =
    if has_key run.run_id s.runs
    then (raise value_error, s)
    else (return tt, record s { runs = insert run.run_id run s.runs })

unfoldable pub update_run_status : String → RunStatus → Exec Store (Unit {0})
update_run_status run_id status s = elim (lookup run_id s.runs) [
  | none ↦ (raise key_error, s)
  | some run ↦
      (return tt, record s { runs = insert run_id (record run { status = status }) s.runs })
]

unfoldable pub update_run_finished_at : String → ℕ → Exec Store (Unit {0})
update_run_finished_at run_id finished_at s = elim (lookup run_id s.runs) [
  | none ↦ (raise key_error, s)
  | some run ↦ (
    return tt,
    record s { runs = insert run_id (record run { finished_at = some finished_at }) s.runs },
  )
]

unfoldable pub get_run : String → Store → Option RunRecord
get_run run_id s = lookup run_id s.runs

unfoldable pub list_runs : Store → List RunRecord
list_runs s = values s.runs

unfoldable pub create_task : TaskRecord → Exec Store (Unit {0})
create_task task s =
    if has_key task.task_id s.tasks
    then (raise value_error, s)
    else (return tt, record s { tasks = insert task.task_id task s.tasks })

-- `self._tasks[task.task_id] = task`
unfoldable pub put_task : TaskRecord → Store → Store
put_task task s = record s { tasks = insert task.task_id task s.tasks }

-- `self._tasks[task_id] = task`, where the key is the argument of the method.
unfoldable pub put_task_at : String → TaskRecord → Store → Store
put_task_at task_id task s = record s { tasks = insert task_id task s.tasks }

unfoldable pub update_task_status :
    String → TaskStatus → Option Fields → Option String → Exec Store (Unit {0})
unfolding put_task_at
update_task_status task_id status result error s = elim (lookup task_id s.tasks) [
  | none ↦ (raise key_error, s)
  | some task ↦
      and_then (ensure_task_transition task.status status)
        (λ _ st. (
          return tt,
          put_task_at task_id
              (record task {
                status = status;
                result = result;
                error = error;
                lease_owner = none;
                leased_until = none;
              })
              st,
        ))
        s
]

-- `sorted(…, key=task_key)`: texts are compared by code point, and the sort is stable.
unfoldable pub key_le : TaskRecord → TaskRecord → Bool
key_le a b = not (is_lt (compare b.task_key a.task_key))

unfoldable pub insert_sorted : TaskRecord → List TaskRecord → List TaskRecord
unfolding key_le
insert_sorted t [] = t ∷ []
insert_sorted t (u ∷ us) = if key_le t u then t ∷ u ∷ us else u ∷ insert_sorted t us

unfoldable pub sort_by_key : List TaskRecord → List TaskRecord
unfolding insert_sorted
sort_by_key [] = []
sort_by_key (t ∷ ts) = insert_sorted t (sort_by_key ts)

unfoldable pub tasks_of_run : String → List TaskRecord → List TaskRecord
tasks_of_run run_id [] = []
tasks_of_run run_id (t ∷ ts) =
    let rest = tasks_of_run run_id ts in if t.run_id == run_id then t ∷ rest else rest

unfoldable pub list_tasks : String → Store → List TaskRecord
list_tasks run_id s = sort_by_key (tasks_of_run run_id (values s.tasks))

-- LEASED, with a lease that ended before `now`.
unfoldable pub has_expired_lease : ℕ → TaskRecord → Bool
unfolding task_is
has_expired_lease now task =
    task_is task.status leased
    && elim task.leased_until [ none ↦ false | some until ↦ ltb until now ]

unfoldable pub is_leaseable : ℕ → TaskRecord → Bool
unfolding has_expired_lease
is_leaseable now task = task_is task.status pending || has_expired_lease now task

unfoldable pub first_such : (TaskRecord → Bool) → List TaskRecord → Option TaskRecord
first_such p [] = none
first_such p (t ∷ ts) = if p t then some t else first_such p ts

unfoldable pub append_event : EventRecord → Store → Store
append_event event s = record s { events = s.events ++ event ∷ [] }

-- `now` is read before the lock is taken, `lease_now` when the lease is made.
unfoldable pub lease_next_pending_task :
    (now lease_now : ℕ) (stamp : Stamp) (run_id worker_id : String) (lease_seconds : ℕ)
    → Store
    → Option TaskRecord × Store
unfolding put_task append_event
lease_next_pending_task now lease_now stamp run_id worker_id lease_seconds s =
    elim (first_such (is_leaseable now) (list_tasks run_id s)) [
      | none ↦ (none, s)
      | some task ↦
          let lease = from_seconds lease_now worker_id lease_seconds in
          let claimed = record task {
            status = leased;
            lease_owner = some worker_id;
            leased_until = some lease.leased_until;
          } in
          let event = new_event stamp run_id (some task.task_id) "lease_expired" (
            field "previous_owner" (optional_str task.lease_owner)
              (field "reclaimed_by" (str worker_id) end)) in
          let stored = put_task claimed s in
          (some claimed, if has_expired_lease now task then append_event event stored else stored)
    ]

unfoldable pub mark_task_running : String → Exec Store (Unit {0})
unfolding put_task_at
mark_task_running task_id s = elim (lookup task_id s.tasks) [
  | none ↦ (raise key_error, s)
  | some task ↦
      if not (task_is task.status leased)
      then (raise key_error, s)
      else (return tt, put_task_at task_id (record task { status = running }) s)
]

unfoldable pub increment_task_attempts : String → Exec Store ℕ
unfolding put_task_at
increment_task_attempts task_id s = elim (lookup task_id s.tasks) [
  | none ↦ (raise key_error, s)
  | some task ↦
      let updated = record task { attempt_count = task.attempt_count + 1 } in
      (return updated.attempt_count, put_task_at task_id updated s)
]
