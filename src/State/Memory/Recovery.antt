-- ===== src/State/Memory/Recovery.antt =====
-- state/memory_store.py: the recovery of leases and of tasks that a dead worker held, and the lists
-- of events and artifacts.
use fine_tune_harness.Base.{
  ℕ, suc, ◌+◌, String, Bool, false, ◌&&◌, ◌||◌, none, some, List, [], ◌∷◌, ◌++◌, leb, if◌then◌else◌,
  ◌==◌, values,
}
use fine_tune_harness.Base.Int.{pos}
use fine_tune_harness.State.Value.{end, field, str, int}
use fine_tune_harness.State.Models.{
  pending, leased, running, failed, TaskRecord, EventRecord, ArtifactRecord,
}
use fine_tune_harness.Orchestrator.Lifecycle.{task_is}
use fine_tune_harness.State.Memory.{
  Store, Stamp, new_event, optional_str, put_task, append_event, has_expired_lease, first_such,
}

-- The task as PENDING, with no lease.
unfoldable pub unleased : TaskRecord → TaskRecord
unleased task = record task { status = pending; lease_owner = none; leased_until = none }

-- The loop over a snapshot of the tasks; the n-th event that it appends takes the n-th stamp.
unfoldable pub requeue_each :
    (now : ℕ) (stamps : ℕ → Stamp) (run_id : String) (count : ℕ)
    → List TaskRecord
    → Store
    → ℕ × Store
unfolding put_task append_event unleased
requeue_each now stamps run_id count [] s = (count, s)
requeue_each now stamps run_id count (task ∷ rest) s =
    let event =
      new_event (stamps count) run_id (some task.task_id) "lease_expired"
        (field "previous_owner" (optional_str task.lease_owner) end) in
    let requeued =
      requeue_each now stamps run_id (count + 1) rest
        (append_event event (put_task (unleased task) s)) in
    let skipped = requeue_each now stamps run_id count rest s in
    if task.run_id == run_id && has_expired_lease now task then requeued else skipped

unfoldable pub requeue_expired_leases :
    (now : ℕ) (stamps : ℕ → Stamp) (run_id : String) → Store → ℕ × Store
unfolding requeue_each
requeue_expired_leases now stamps run_id s = requeue_each now stamps run_id 0 (values s.tasks) s

-- `lease_owner == worker_id`; `None` equals no text.
unfoldable pub owned_by : String → TaskRecord → Bool
owned_by worker_id task = elim task.lease_owner [ none ↦ false | some owner ↦ owner == worker_id ]

unfoldable pub is_held : (run_id worker_id : String) → TaskRecord → Bool
unfolding owned_by
is_held run_id worker_id task =
    task.run_id == run_id
    && (owned_by worker_id task && (task_is task.status leased || task_is task.status running))

unfoldable pub is_about : String → EventRecord → Bool
is_about task_id event = elim event.task_id [
  | none ↦ false
  | some event_task ↦ event_task == task_id
]

-- How often an event of this kind was recorded about the task.
unfoldable pub count_events : (task_id kind : String) → List EventRecord → ℕ
unfolding is_about
count_events task_id kind [] = 0
count_events task_id kind (e ∷ es) =
    let rest = count_events task_id kind es in
    if is_about task_id e && e.kind == kind then suc rest else rest

-- The text "none" | "failed" | "requeued" that the method returns.
pub data Reclaim : Type 0 where
  nothing_held abandoned requeued : Reclaim

unfoldable pub reclaim_dead_worker :
    (stamp : Stamp) (run_id worker_id : String) (max_reclaims : ℕ) → Store → Reclaim × Store
unfolding put_task append_event unleased
reclaim_dead_worker stamp run_id worker_id max_reclaims s =
    elim (first_such (is_held run_id worker_id) (values s.tasks)) [
      | none ↦ (nothing_held, s)
      | some task ↦
          let prior = count_events task.task_id "lease_reclaimed" s.events in
          let payload =
            field "dead_worker" (str worker_id) (field "prior_reclaims" (int (pos prior)) end) in
          let record_it = λ (kind : String).
            append_event (new_event stamp run_id (some task.task_id) kind payload) in
          if leb max_reclaims prior
          then (
            abandoned,
            record_it "task_abandoned" (
                put_task
                  (record task {
                    status = failed;
                    lease_owner = none;
                    leased_until = none;
                    error = some "worker died without reporting";
                  })
                  s),
          )
          else (requeued, record_it "lease_reclaimed" (put_task (unleased task) s))
    ]

unfoldable pub create_artifact : ArtifactRecord → Store → Store
create_artifact artifact s = record s { artifacts = s.artifacts ++ artifact ∷ [] }

unfoldable pub artifacts_of_run : String → List ArtifactRecord → List ArtifactRecord
artifacts_of_run run_id [] = []
artifacts_of_run run_id (a ∷ rest) =
    let others = artifacts_of_run run_id rest in if a.run_id == run_id then a ∷ others else others

unfoldable pub list_artifacts : String → Store → List ArtifactRecord
unfolding artifacts_of_run
list_artifacts run_id s = artifacts_of_run run_id s.artifacts

unfoldable pub events_of_run : String → List EventRecord → List EventRecord
events_of_run run_id [] = []
events_of_run run_id (e ∷ es) =
    let rest = events_of_run run_id es in if e.run_id == run_id then e ∷ rest else rest

unfoldable pub list_events : String → Store → List EventRecord
unfolding events_of_run
list_events run_id s = events_of_run run_id s.events
