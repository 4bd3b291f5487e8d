-- ===== src/Executor/Worker/Settling.antt =====
-- What each outcome of a handler makes of the task that ran (executor/worker.py).
use fine_tune_harness.Base.{
  ℕ, String, true, false, ◌&&◌, Option, none, some, ◌≡◌, ◌≢◌, refl, ◌∙◌, inl, inr, Bool-cases, Dict,
  lookup, insert, if◌then◌else◌, ltb,
}
use fine_tune_harness.Effects.{
  Exception, type_error, Result, return, raise, lift, and_then, ◌>>=◌, message,
}
use fine_tune_harness.World.{Env, World, Act, on_store}
use fine_tune_harness.State.Value.{
  Value, null, bool, int, float, str, list, dict, Fields, Float, get_or, set,
}
use fine_tune_harness.State.Models.{TaskStatus, TaskRecord}
use fine_tune_harness.State.Memory.{update_task_status, append_event}
use fine_tune_harness.Orchestrator.Lifecycle.{ensure_task_transition}
use fine_tune_harness.Evaluation.Validator.{ValidationOutcome, validate_result}
use fine_tune_harness.Executor.Oom.{is_oom_error}
use fine_tune_harness.Orchestrator.Hooks.{fire}
use fine_tune_harness.World.{record_event}
use fine_tune_harness.Executor.Session.{
  Worker, about_task, fire_hooks, note_hooks, resolve_max_attempts,
}
use fine_tune_harness.Base.Text.{codes, contains}
use fine_tune_harness.Executor.Worker.{
  store_status, retry_or_fail, on_timeout, on_failure, record_degenerate, record_success, on_result,
  timed_value, spread, text_item, with_wall_seconds, result_status_value, message_list, is_rejected,
}
use fine_tune_harness.Executor.Worker.Frames.{
  Keeps, Keeps-bind, Keeps-pure, Keeps-throw, Keeps-lift, refresh-Keeps, status_changed-Keeps,
  artifact-Keeps, task_event-Keeps, report-Keeps,
}

-- The stored task once it has the status: its lease is gone.
abbrev pub settled : TaskRecord → TaskStatus → Option Fields → Option String → TaskRecord
settled t status result error = record t {
  status = status;
  result = result;
  error = error;
  lease_owner = none;
  leased_until = none;
}

-- The step leaves the table of tasks as `d`.
pub record Leaves {E A : Type 0} (m : Act E A) (w : World E) (d : Dict TaskRecord) : Type 0 where
  pub left : (m w).1.store.tasks ≡ d

module _ {E : Type 0} where
  pub Leaves-bind :
      {A B : Type 0} (m : Act E A) (f : A → Act E B) (w : World E) (d : Dict TaskRecord)
      → Leaves m w d
      → ((a : A) → Keeps (f a))
      → Leaves (m >>= f) w d
  Leaves-bind m f w d e kf = record { left = then_leaves f kf (m w).0 (m w).1 ∙ e.left }
    where
      then_leaves :
          {A B : Type 0} (f : A → Act E B)
          → ((a : A) → Keeps (f a))
          → (r : Result A) (w : World E) → (and_then r f w).1.store.tasks ≡ w.store.tasks
      then_leaves f kf (return a) w = (kf a).at w
      then_leaves f kf (raise e) w = refl

-- A worker, a run, a task that it leased, the record that the store holds of it (RUNNING), and the
-- task as hooks and handler left it.
module _ {E : Type 0} (env : Env) (wk : Worker E) (run_id : String) (task t working : TaskRecord)
    (attempt : ℕ) (w : World E) (stored : lookup task.task_id w.store.tasks ≡ some t)
    (busy : t.status ≡ TaskStatus.running) where
  pub store-Leaves :
      (st : TaskStatus) (r : Option Fields) (e : Option String)
      → ensure_task_transition TaskStatus.running st ≡ return tt
      → Leaves
          (store_status env wk run_id task st r e)
          w
          (insert task.task_id (settled t st r e) w.store.tasks)
  unfolding store_status on_store update_task_status
  store-Leaves st r e allowed = record {
    left = rw (stored, busy, allowed, update_task_status) refl;
  }

  timeout-Leaves :
      (e : Exception)
      → Leaves (on_timeout env wk run_id task working attempt e) w (
          insert task.task_id
            (settled t TaskStatus.timed_out none (some (message e)))
            w.store.tasks)
  unfolding on_timeout ensure_task_transition
  timeout-Leaves e =
      Leaves-bind _ _ w _ (store-Leaves TaskStatus.timed_out none (some (message e)) refl) λ _.
        Keeps-bind _ _ (task_event-Keeps env wk run_id task _ _ _)
          λ _. Keeps-bind _ _ (report-Keeps env wk run_id task working _ _) λ _. Keeps-throw e

  -- After a timeout the task is TIMED_OUT with the message and no lease, and no other task changes.
  pub on_timeout_settles :
      (e : Exception)
      → (on_timeout env wk run_id task working attempt e w).1.store.tasks
        ≡ insert task.task_id (settled t TaskStatus.timed_out none (some (message e))) w.store.tasks
  on_timeout_settles e = (timeout-Leaves e).left

  retry-Leaves :
      (e : Exception) (n : ℕ)
      → Leaves (retry_or_fail env wk run_id task e attempt n) w (
          insert task.task_id
            (settled t
              (if ltb attempt n then TaskStatus.pending else TaskStatus.failed)
              none
              (some (message e)))
            w.store.tasks)
  unfolding retry_or_fail ensure_task_transition
  retry-Leaves e n = elim (Bool-cases (ltb attempt n)) [
    | inl again ↦ rw again (
        Leaves-bind _ _ w _ (store-Leaves TaskStatus.pending none (some (message e)) refl)
          λ _. task_event-Keeps env wk run_id task _ _ _)
    | inr last ↦ rw last (
        Leaves-bind _ _ w _ (store-Leaves TaskStatus.failed none (some (message e)) refl)
          λ _. task_event-Keeps env wk run_id task _ _ _)
  ]

  failure-Leaves :
      (e : Exception) (n : ℕ)
      → (ltb 0 wk.max_oom_retries && is_oom_error e) ≡ false
      → resolve_max_attempts env wk working ≡ return n
      → Leaves (on_failure env wk run_id task working attempt e) w (
          insert task.task_id
            (settled t
              (if ltb attempt n then TaskStatus.pending else TaskStatus.failed)
              none
              (some (message e)))
            w.store.tasks)
  unfolding on_failure lift
  failure-Leaves e n no_budget limit =
      rw (no_budget, limit)
        (Leaves-bind _ _ w _ (retry-Leaves e n) λ _.
          Keeps-bind _ _ (report-Keeps env wk run_id task working _ _)
            λ after. Keeps-bind _ _ (Keeps-lift _) λ _. Keeps-throw e)

  -- After a handler raised, without an out-of-memory error that the drain has a budget for, the task
  -- is PENDING again while its attempts are below the limit that its payload or the policy sets, and
  -- FAILED otherwise, with the message and no lease, and no other task changes.
  pub on_failure_settles :
      (e : Exception) (n : ℕ)
      → (ltb 0 wk.max_oom_retries && is_oom_error e) ≡ false
      → resolve_max_attempts env wk working ≡ return n
      → (on_failure env wk run_id task working attempt e w).1.store.tasks
        ≡ insert task.task_id
            (settled t
              (if ltb attempt n then TaskStatus.pending else TaskStatus.failed)
              none
              (some (message e)))
            w.store.tasks
  on_failure_settles e n no_budget limit = (failure-Leaves e n no_budget limit).left

  -- The result with the verdict, as it is stored for a rejected task.
  abbrev judged : Fields → ValidationOutcome → Fields
  judged timed outcome = set "_validation_status" (str (result_status_value outcome.status)) timed

  degenerate-Leaves :
      (result : Fields) (outcome : ValidationOutcome)
      → Leaves (record_degenerate env wk run_id task working result outcome attempt) w (
          insert task.task_id
            (settled t TaskStatus.degenerate
              (some result)
              (some (result_status_value outcome.status)))
            w.store.tasks)
  unfolding record_degenerate ensure_task_transition
  degenerate-Leaves result outcome =
      Leaves-bind _ _ w _
        (store-Leaves TaskStatus.degenerate (some result)
          (some (result_status_value outcome.status)) refl)
        λ _. Keeps-bind _ _ (artifact-Keeps env wk task result) λ _.
          Keeps-bind _ _ (task_event-Keeps env wk run_id task _ _ _)
            λ _. Keeps-bind _ _ (report-Keeps env wk run_id task working _ _) λ _. Keeps-throw _

  -- A dictionary that the validator finds degenerate or invalid leaves the task DEGENERATE, with the
  -- result, the verdict in it and no lease, and no other task changes.
  pub on_result_rejected :
      (wall_seconds : Float) (returned : Fields) (outcome : ValidationOutcome)
      → validate_result
          (get_or "method" null working.payload)
          (dict (with_wall_seconds wall_seconds returned))
        ≡ return outcome
      → is_rejected outcome.status ≡ true
      → (on_result env wk run_id task working attempt wall_seconds (dict returned) w).1.store.tasks
        ≡ insert task.task_id
            (settled t TaskStatus.degenerate
              (some (
                set "_validation_errors"
                  (list (message_list outcome.validation_errors))
                  (judged (with_wall_seconds wall_seconds returned) outcome)))
              (some (result_status_value outcome.status)))
            w.store.tasks
  unfolding on_result lift timed_value spread
  on_result_rejected wall_seconds returned outcome verdict rejected =
      rw (verdict, rejected, on_result) (degenerate-Leaves _ outcome).left

-- What the hooks make of the result of a success.
abbrev pub hooked_result : {E : Type 0} → Worker E → TaskRecord → Fields → E → Fields
hooked_result wk working result x =
    elim (fire wk.hooks "after_task_success" (record (about_task working) { result = some result })
      x).0.result [ none ↦ result | some changed ↦ changed ]

module _ {E : Type 0} (env : Env) (wk : Worker E) (run_id : String) (task t working : TaskRecord)
    (attempt : ℕ) (w : World E) (stored : lookup task.task_id w.store.tasks ≡ some t)
    (busy : t.status ≡ TaskStatus.running) where
  success-Leaves :
      (result : Fields)
      → Leaves (record_success env wk run_id task working result attempt) w (
          insert task.task_id
            (settled t TaskStatus.succeeded (some (hooked_result wk working result w.outside)) none)
            w.store.tasks)
  unfolding record_success fire_hooks note_hooks record_event append_event ensure_task_transition
  success-Leaves result = record {
    left =
        (Leaves-bind _ _ _ _
          (store-Leaves env wk run_id task t working attempt _ stored busy TaskStatus.succeeded
            (some (hooked_result wk working result w.outside)) none refl)
          λ _. Keeps-bind _ _ (artifact-Keeps env wk task _) λ _.
            Keeps-bind _ _ (task_event-Keeps env wk run_id task _ _ _) λ _.
              Keeps-bind _ _ (refresh-Keeps env run_id) λ status.
                Keeps-bind _ _ (status_changed-Keeps env wk run_id status)
                  λ _. Keeps-pure (some task)).left;
  }

  -- A dictionary that the validator accepts leaves the task SUCCEEDED, with the result as the hooks
  -- left it, no error and no lease, and no other task changes.
  pub on_result_accepted :
      (wall_seconds : Float) (returned : Fields) (outcome : ValidationOutcome)
      → validate_result
          (get_or "method" null working.payload)
          (dict (with_wall_seconds wall_seconds returned))
        ≡ return outcome
      → is_rejected outcome.status ≡ false
      → (on_result env wk run_id task working attempt wall_seconds (dict returned) w).1.store.tasks
        ≡ insert task.task_id
            (settled t TaskStatus.succeeded
              (some (
                hooked_result wk working
                  (set "_validation_status"
                    (str (result_status_value outcome.status))
                    (with_wall_seconds wall_seconds returned))
                  w.outside))
              none)
            w.store.tasks
  unfolding on_result lift timed_value spread
  on_result_accepted wall_seconds returned outcome verdict accepted =
      rw (verdict, accepted, on_result) (success-Leaves _).left

module _ {E : Type 0} (env : Env) (wk : Worker E) (run_id : String) (task working : TaskRecord)
    (attempt : ℕ) (w : World E) where
  -- A value that is no dictionary raises TypeError and changes nothing, also when it is a text or a list
  -- that holds "wall_seconds" and so reaches the validator: the task stays RUNNING.
  pub on_result_not_a_dict :
      (wall_seconds : Float) (value : Value)
      → ((returned : Fields) → value ≢ dict returned)
      → on_result env wk run_id task working attempt wall_seconds value w ≡ (raise type_error, w)
  unfolding on_result lift timed_value spread validate_result
  on_result_not_a_dict wall_seconds null other = refl
  on_result_not_a_dict wall_seconds (bool b) other = refl
  on_result_not_a_dict wall_seconds (int n) other = refl
  on_result_not_a_dict wall_seconds (float x) other = refl
  on_result_not_a_dict wall_seconds (str s) other =
      elim (Bool-cases (contains (codes "wall_seconds") (codes s))) [
        | inl held ↦ rw (held, on_result) refl
        | inr missing ↦ rw (missing, on_result) refl
      ]
  on_result_not_a_dict wall_seconds (list vs) other =
      elim (Bool-cases (text_item "wall_seconds" vs)) [
        | inl held ↦ rw (held, on_result) refl
        | inr missing ↦ rw (missing, on_result) refl
      ]
  on_result_not_a_dict wall_seconds (dict fields) other = absurd (other fields refl)
