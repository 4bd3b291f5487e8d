-- ===== src/State/Sqlite/Refines/Leases.antt =====
-- state/sqlite.py against state/memory_store.py: lease_next_pending_task.
use fine_tune_harness.Base.{
  ℕ, String, true, false, Option, none, some, List, [], ◌∷◌, ◌++◌, ◌==◌, ◌≡◌, refl, ap, sym, ◌∙◌,
  arith, eq_iff, Bool-cases, Option-cases, inl, inr, lookup,
}
use fine_tune_harness.Effects.{return, Exec}
use fine_tune_harness.State.Models.{leased, TaskRecord}
use fine_tune_harness.State.Value.{str, end, field}
use fine_tune_harness.State.Memory
use fine_tune_harness.State.Memory.{
  Store, Stamp, new_event, optional_str, put_task, append_event, is_leaseable, has_expired_lease,
  first_such, sort_by_key, tasks_of_run,
}
use fine_tune_harness.State.Memory.Keys.{
  lookup_of_In, first_such-In, In-sort_by_key, In-tasks_of_run,
}
use fine_tune_harness.State.Leases.{from_seconds}
use fine_tune_harness.State.Sqlite.{
  Database, dumps, sort_value, insert_field, transaction, settle, set_rows, update_rows, has_run,
  has_task, has_event, refers, insert_event,
}
use fine_tune_harness.State.Sqlite.Tasks.{
  set_lease, note_expired, lease_row, lease_selected, list_tasks, lease_next_pending_task,
}
use fine_tune_harness.State.Sqlite.Refines.{by_id, abstract, values-by_id, set_rows_present}
use fine_tune_harness.State.Sqlite.Refines.Steps.{
  IsConsistent, set_rows-IsConsistent, Simulates, simulated,
}
use fine_tune_harness.Orchestrator.Lifecycle.{task_is}

-- A method that does not raise.
abbrev pub total : {S A : Type 0} → (S → A × S) → Exec S A
total m s = (return (m s).0, (m s).1)

dumps_expired :
    (owner : Option String) (worker_id : String)
    → dumps (field "previous_owner" (optional_str owner) (field "reclaimed_by" (str worker_id) end))
      ≡ field "previous_owner" (optional_str owner) (field "reclaimed_by" (str worker_id) end)
unfolding dumps sort_value insert_field optional_str
dumps_expired none worker_id = refl
dumps_expired (some owner) worker_id = refl

-- An update keeps the ids.
pub has_task-set_rows :
    (id : String) (change : TaskRecord → TaskRecord) (ts : List TaskRecord) (t : TaskRecord)
    → lookup id (by_id ts) ≡ some t
    → (change t).task_id ≡ t.task_id
    → has_task id (set_rows id change ts) ≡ true
unfolding has_task set_rows by_id lookup
has_task-set_rows id change [] t found kept = cc
has_task-set_rows id change (u ∷ ts) t found kept = elim (Bool-cases (u.task_id == id)) [
  | inl here ↦ ground (arith, eq_iff (change t).task_id id, eq_iff t.task_id id)
  | inr other ↦ ground (arith, has_task-set_rows id change ts t)
]

-- A task that can be leased and is LEASED has an expired lease.
expired_if_leased :
    (now : ℕ) (t : TaskRecord)
    → is_leaseable now t ≡ true
    → has_expired_lease now t ≡ task_is t.status leased
unfolding is_leaseable has_expired_lease task_is
expired_if_leased now t h = ground (arith)

module _ (view now lease_now : ℕ) (stamp : Stamp) (run_id worker_id : String) (lease_seconds : ℕ)
    (db : Database) (valid : IsConsistent db.runs db.tasks) where
  pub lease_next_pending_task_refines :
      has_event stamp.event_id db.events ≡ false
      → Simulates view
          (total
            (Memory.lease_next_pending_task now lease_now stamp run_id worker_id lease_seconds))
          (lease_next_pending_task now lease_now stamp run_id worker_id lease_seconds)
          db
  unfolding abstract lease_next_pending_task Memory.lease_next_pending_task transaction settle
      update_rows put_task list_tasks Memory.list_tasks lease_selected lease_row append_event
      note_expired insert_event refers set_lease new_event from_seconds
  lease_next_pending_task_refines fresh =
      elim (Option-cases
        (first_such (is_leaseable now) (sort_by_key (tasks_of_run run_id db.tasks)))) [
          | inl missing ↦
              simulated (return none) db valid
                (rw (values-by_id db.tasks, missing, Memory.lease_next_pending_task) refl)
                (rw (missing, lease_next_pending_task, transaction) refl)
          | inr (t, found) ↦
              let (can, sorted_in) =
                first_such-In (is_leaseable now) (sort_by_key (tasks_of_run run_id db.tasks)) t
                  found in
              let (stands, same_run) =
                In-tasks_of_run run_id t db.tasks
                  (In-sort_by_key t (tasks_of_run run_id db.tasks) sorted_in) in
              let stored_at =
                lookup_of_In t (by_id db.tasks) valid.keyed (rw (values-by_id db.tasks) stands) in
              let change =
                set_lease worker_id (from_seconds lease_now worker_id lease_seconds).leased_until in
              let (stored, one_row) =
                set_rows_present t.task_id change db.tasks t valid.keyed stored_at refl in
              let changed = set_rows-IsConsistent t.task_id change (λ t. refl) (λ t. refl) valid in
              let known = has_task-set_rows t.task_id change db.tasks t stored_at refl in
              let run_known = valid.has_runs t stands in
              let expired = expired_if_leased now t can in
              elim (Bool-cases (task_is t.status leased)) [
                | inl is_leased ↦
                    let event = new_event stamp run_id (some t.task_id) "lease_expired" (
                      field "previous_owner" (optional_str t.lease_owner)
                        (field "reclaimed_by" (str worker_id) end)) in
                    let written = dumps_expired t.lease_owner worker_id in
                    let in_run = ap (λ r. has_run r db.runs) (sym same_run) ∙ run_known in
                    simulated (return (some (change t)))
                      (record db {
                        tasks = set_rows t.task_id change db.tasks;
                        events = db.events ++ event ∷ [];
                      })
                      changed
                      (rw
                        (
                          values-by_id db.tasks,
                          found,
                          expired,
                          is_leased,
                          stored,
                          Memory.lease_next_pending_task,
                        )
                        refl)
                      (rw
                        (
                          found, one_row, is_leased, fresh, in_run, known, written,
                          lease_next_pending_task, transaction,
                        )
                        refl)
                | inr is_pending ↦
                    simulated (return (some (change t)))
                      (record db { tasks = set_rows t.task_id change db.tasks }) changed
                      (rw
                        (
                          values-by_id db.tasks,
                          found,
                          expired,
                          is_pending,
                          stored,
                          Memory.lease_next_pending_task,
                        )
                        refl)
                      (rw (found, one_row, is_pending, lease_next_pending_task, transaction) refl)
              ]
        ]
