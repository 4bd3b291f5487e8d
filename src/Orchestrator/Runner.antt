-- ===== src/Orchestrator/Runner.antt =====
-- orchestrator/runner.py: the status of a run follows the statuses of its tasks.
pub mod Refresh
pub mod Targets
use fine_tune_harness.Base.{
  ℕ, ◌+◌, String, Bool, true, false, not, ◌&&◌, ◌||◌, Option, none, some, List, [], ◌∷◌, ltb,
  if◌then◌else◌,
}
use fine_tune_harness.Effects.{
  Result, return, raise, key_error, attribute_error, pure, lift, ◌>>=◌, ◌>>◌,
}
use fine_tune_harness.World.{Env, World, Act, on_store, ask, utc_now, record_event}
use fine_tune_harness.State.Value.{end, field, str}
use fine_tune_harness.State.Models.{
  RunStatus, validated, partial_failed, completed, run_status_value, TaskStatus, RunRecord,
  TaskRecord,
}
use fine_tune_harness.State.Memory.{get_run, list_tasks, update_run_status, update_run_finished_at}
use fine_tune_harness.Orchestrator.Lifecycle.{
  run_is, run_in, task_in, allowed_run_transitions, ensure_run_transition,
}

-- Tests over the set of the statuses of the tasks.
unfoldable pub any_in : List TaskStatus → List TaskRecord → Bool
any_in set [] = false
any_in set (t ∷ ts) = task_in t.status set || any_in set ts

unfoldable pub all_in : List TaskStatus → List TaskRecord → Bool
all_in set [] = true
all_in set (t ∷ ts) = task_in t.status set && all_in set ts

unfoldable pub any_attempted : List TaskRecord → Bool
any_attempted [] = false
any_attempted (t ∷ ts) = ltb 0 t.attempt_count || any_attempted ts

abbrev pub unsuccessful : List TaskStatus
unsuccessful = TaskStatus.failed ∷ TaskStatus.timed_out ∷ TaskStatus.degenerate ∷ []

abbrev pub in_progress : List TaskStatus
in_progress = TaskStatus.pending ∷ TaskStatus.leased ∷ TaskStatus.running ∷ []

abbrev pub only_succeeded : List TaskStatus
only_succeeded = TaskStatus.succeeded ∷ []

unfoldable pub target_status : List TaskRecord → RunStatus
unfolding any_in all_in any_attempted
target_status [] = validated
target_status (t ∷ ts) =
    let tasks = t ∷ ts in
    if all_in only_succeeded tasks
    then completed
    else if any_in unsuccessful tasks && (any_in only_succeeded tasks || any_in in_progress tasks)
    then partial_failed
    else if all_in (TaskStatus.cancelled ∷ unsuccessful) tasks
    then RunStatus.failed
    else if any_in (TaskStatus.running ∷ TaskStatus.leased ∷ TaskStatus.succeeded ∷ []) tasks
        || any_attempted tasks
    then RunStatus.running
    else validated

abbrev pub terminal_statuses : List RunStatus
terminal_statuses = completed ∷ RunStatus.failed ∷ RunStatus.cancelled ∷ []

module _ {E : Type 0} (env : Env) where
  unfoldable pub status_event : String → (from to : RunStatus) → Act E (Unit {0})
  status_event run_id from to =
      record_event env run_id none "run_status_changed"
        (field "from" (str (run_status_value from)) (field "to" (str (run_status_value to)) end))

  -- `run = self._store.get_run(run_id)`, read for its fields.
  unfoldable pub reload : String → Act E RunRecord
  reload run_id w = elim (get_run run_id w.store) [
    | none ↦ (raise attribute_error, w)
    | some run ↦ (return run, w)
  ]

  unfoldable pub enter_running : RunRecord → String → Act E RunRecord
  unfolding status_event reload
  enter_running run run_id = do
    lift (ensure_run_transition run.status RunStatus.running)
    on_store (update_run_status run_id RunStatus.running)
    status_event run_id run.status RunStatus.running
    reload run_id

  -- If the direct transition is invalid, step through RUNNING first.
  unfoldable pub step_through_running : RunRecord → RunStatus → String → Act E RunRecord
  unfolding enter_running
  step_through_running run target run_id =
      if not (run_in target (allowed_run_transitions run.status))
        && (run_in RunStatus.running (allowed_run_transitions run.status)
            && run_in target (allowed_run_transitions RunStatus.running))
      then enter_running run run_id
      else pure run

  unfoldable pub stamp_finished : RunRecord → RunStatus → String → Act E (Unit {0})
  unfolding utc_now
  stamp_finished run target run_id =
      if run_in target terminal_statuses
      then elim run.finished_at [
        | none ↦ utc_now env >>= λ finished_at. on_store (update_run_finished_at run_id finished_at)
        | some _ ↦ pure tt
      ]
      else pure tt

  unfoldable pub move_to : RunRecord → RunStatus → String → Act E RunStatus
  unfolding stamp_finished status_event
  move_to run target run_id = do
    lift (ensure_run_transition run.status target)
    on_store (update_run_status run_id target)
    stamp_finished run target run_id
    status_event run_id run.status target
    pure target

  unfoldable pub change_status : RunRecord → RunStatus → String → Act E RunStatus
  unfolding step_through_running move_to
  change_status run target run_id = do
    current ← step_through_running run target run_id
    move_to current target run_id

  unfoldable pub refresh_run_status : String → Act E RunStatus
  unfolding change_status target_status
  refresh_run_status run_id w = elim (get_run run_id w.store) [
    | none ↦ (raise key_error, w)
    | some run ↦
        let target = target_status (list_tasks run_id w.store) in
        if run_is target run.status then (return target, w) else change_status run target run_id w
  ]
