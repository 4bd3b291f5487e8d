-- ===== src/State/Sqlite/Refines/Reclaims.antt =====
-- state/sqlite.py against state/memory_store.py: reclaim_dead_worker.
use fine_tune_harness.Base.{
  ℕ, String, true, false, some, [], ◌∷◌, ◌++◌, leb, ◌≡◌, refl, ap, sym, ◌∙◌, arith, eq_iff,
  Bool-cases, Option-cases, inl, inr,
}
use fine_tune_harness.Base.Int.{pos}
use fine_tune_harness.Effects.{return}
use fine_tune_harness.State.Models.{TaskRecord}
use fine_tune_harness.State.Value.{str, int, end, field}
use fine_tune_harness.State.Memory.{Stamp, new_event, put_task, append_event, first_such}
use fine_tune_harness.State.Memory.Recovery
use fine_tune_harness.State.Memory.Recovery.{
  unleased, is_held, count_events, nothing_held, abandoned, requeued,
}
use fine_tune_harness.State.Memory.Keys.{lookup_of_In, first_such-In}
use fine_tune_harness.State.Sqlite.{
  Database, dumps, sort_value, insert_field, transaction, settle, set_rows, update_rows, has_run,
  has_event, refers, insert_event,
}
use fine_tune_harness.State.Sqlite.Recovery.{
  set_abandoned, note_reclaim, reclaim_row, reclaim_selected, reclaim_dead_worker,
}
use fine_tune_harness.State.Sqlite.Refines.{by_id, abstract, values-by_id, set_rows_present}
use fine_tune_harness.State.Sqlite.Refines.Steps.{
  IsConsistent, set_rows-IsConsistent, Simulates, simulated,
}
use fine_tune_harness.State.Sqlite.Refines.Leases.{total, has_task-set_rows}

held_in_run :
    (run_id worker_id : String) (t : TaskRecord)
    → is_held run_id worker_id t ≡ true
    → t.run_id ≡ run_id
unfolding is_held
held_in_run run_id worker_id t h = ground (arith, eq_iff t.run_id run_id)

module _ (view : ℕ) (stamp : Stamp) (run_id worker_id : String) (max_reclaims : ℕ) (db : Database)
    (valid : IsConsistent db.runs db.tasks) where
  pub reclaim_dead_worker_refines :
      has_event stamp.event_id db.events ≡ false
      → Simulates view
          (total (Recovery.reclaim_dead_worker stamp run_id worker_id max_reclaims))
          (reclaim_dead_worker stamp run_id worker_id max_reclaims)
          db
  unfolding abstract reclaim_dead_worker Recovery.reclaim_dead_worker transaction settle
      reclaim_selected reclaim_row update_rows note_reclaim insert_event refers put_task
      append_event set_abandoned unleased new_event dumps sort_value insert_field
  reclaim_dead_worker_refines fresh =
      elim (Option-cases (first_such (is_held run_id worker_id) db.tasks)) [
        | inl missing ↦
            simulated (return nothing_held) db valid
              (rw (values-by_id db.tasks, missing, Recovery.reclaim_dead_worker) refl)
              (rw (missing, reclaim_dead_worker, transaction) refl)
        | inr (t, found) ↦
            let (held, stands) = first_such-In (is_held run_id worker_id) db.tasks t found in
            let stored_at =
              lookup_of_In t (by_id db.tasks) valid.keyed (rw (values-by_id db.tasks) stands) in
            let in_run =
              ap (λ r. has_run r db.runs) (sym (held_in_run run_id worker_id t held))
              ∙ valid.has_runs t stands in
            let prior = count_events t.task_id "lease_reclaimed" db.events in
            let payload =
              field "dead_worker" (str worker_id) (field "prior_reclaims" (int (pos prior)) end) in
            elim (Bool-cases (leb max_reclaims prior)) [
              | inl spent ↦
                  let (stored, _) =
                    set_rows_present t.task_id set_abandoned db.tasks t valid.keyed stored_at
                      refl in
                  let known = has_task-set_rows t.task_id set_abandoned db.tasks t stored_at refl in
                  let event = new_event stamp run_id (some t.task_id) "task_abandoned" payload in
                  simulated (return abandoned)
                    (record db {
                      tasks = set_rows t.task_id set_abandoned db.tasks;
                      events = db.events ++ event ∷ [];
                    })
                    (set_rows-IsConsistent t.task_id set_abandoned (λ u. refl) (λ u. refl) valid)
                    (rw (values-by_id db.tasks, found, spent, stored, Recovery.reclaim_dead_worker)
                      refl)
                    (rw (found, spent, fresh, in_run, known, reclaim_dead_worker, transaction) refl)
              | inr left ↦
                  let (stored, _) =
                    set_rows_present t.task_id unleased db.tasks t valid.keyed stored_at refl in
                  let known = has_task-set_rows t.task_id unleased db.tasks t stored_at refl in
                  let event = new_event stamp run_id (some t.task_id) "lease_reclaimed" payload in
                  simulated (return requeued)
                    (record db {
                      tasks = set_rows t.task_id unleased db.tasks;
                      events = db.events ++ event ∷ [];
                    })
                    (set_rows-IsConsistent t.task_id unleased (λ u. refl) (λ u. refl) valid)
                    (rw (values-by_id db.tasks, found, left, stored, Recovery.reclaim_dead_worker)
                      refl)
                    (rw (found, left, fresh, in_run, known, reclaim_dead_worker, transaction) refl)
            ]
      ]
