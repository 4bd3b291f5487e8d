-- ===== src/Executor/Worker.antt =====
-- executor/worker.py: one task from its lease to its outcome, and the sequential drain of a run.
-- What time.sleep does between two attempts is not modelled: it changes no state.
pub mod Frames
pub mod Settling
pub mod Memory
pub mod Draining
pub mod Triples
pub mod Weights
pub mod Attempts
pub mod Endings
pub mod Termination
use fine_tune_harness.Base.{
  ℕ, zero, suc, ◌+◌, String, Bool, true, false, not, ◌&&◌, ◌||◌, Option, none, some, List, [], ◌∷◌,
  ◌++◌, map, ltb, leb, if◌then◌else◌, ◌==◌,
}
use fine_tune_harness.Base.Text.{codes, contains}
use fine_tune_harness.Base.Int.{pos}
use fine_tune_harness.Effects.{
  Exception, degenerate_result, degraded_run, type_error, timeout_error, Result, return, raise,
  pure, throw, lift, ◌>>=◌, ◌>>◌, message,
}
use fine_tune_harness.World.{Env, World, Act, on_store, ask, record_event}
use fine_tune_harness.State.Value.{
  Value, null, int, float, str, list, dict, Items, nil, cons, Fields, end, field, Float, finite,
  get_or, has, set,
}
use fine_tune_harness.State.Models.{TaskStatus, TaskRecord}
use fine_tune_harness.State.Memory.{
  list_tasks, update_task_status, mark_task_running, increment_task_attempts,
}
use fine_tune_harness.State.Memory.Recovery.{count_events, list_events}
use fine_tune_harness.Orchestrator.Lifecycle.{task_in}
use fine_tune_harness.Orchestrator.Runner.{refresh_run_status}
use fine_tune_harness.Orchestrator.Hooks.{Call}
use fine_tune_harness.Evaluation.Validator.{
  ResultStatus, succeeded_validated, succeeded_with_warnings, failed_validation, failed_runtime,
  Message, ValidationOutcome, validate_result,
}
use fine_tune_harness.Executor.Oom.{is_oom_error}
use fine_tune_harness.Executor.Session.{
  HandlerRun, Handler, Worker, about_task, fire_hooks, note_hooks, status_changed, begin_run,
  lease_next_task, seed_run, write_artifact, resolve_max_attempts, resolve_timeout, execute,
}

-- The value of a status of the validator, and the text of a message, which is its fixed part.
unfoldable pub result_status_value : ResultStatus → String
result_status_value succeeded_validated = "SUCCEEDED_VALIDATED"
result_status_value succeeded_with_warnings = "SUCCEEDED_WITH_WARNINGS"
result_status_value failed_validation = "FAILED_VALIDATION"
result_status_value ResultStatus.degenerate_result = "DEGENERATE_RESULT"
result_status_value failed_runtime = "FAILED_RUNTIME"

unfoldable pub message_text : Message → String
message_text Message.not_a_dict = "result must be a dict"
message_text Message.caught_exception = "caught_exception is set"
message_text Message.zero_examples = "evaluation over zero examples"
message_text (Message.metric_nan _) = "metric is NaN"
message_text (Message.metric_inf _) = "metric is Inf"
message_text (Message.out_of_range _) = "metric is outside the expected range [0, 1]"
message_text (Message.negative_loss _) = "loss must be >= 0"
message_text Message.predictions_empty = "predictions_non_empty is False"
message_text Message.adapter_not_loaded = "adapter_loaded is False"
message_text Message.no_trainable_params = "trainable_params == 0 for adapter method"
message_text Message.too_many_trainable = "trainable_params > total_params"
message_text Message.all_bounded_zero = "all bounded metrics are exactly 0.0"
message_text Message.predictions_constant = "predictions_constant is True"

unfoldable pub message_list : List Message → Items
unfolding message_text
message_list [] = nil
message_list (m ∷ ms) = cons (str (message_text m)) (message_list ms)

-- DEGENERATE_RESULT or FAILED_VALIDATION.
unfoldable pub is_rejected : ResultStatus → Bool
is_rejected failed_validation = true
is_rejected ResultStatus.degenerate_result = true
is_rejected _ = false

-- `result` with the time that the handler took, unless it reports one.
unfoldable pub with_wall_seconds : Float → Fields → Fields
unfolding has set
with_wall_seconds t result =
    if has "wall_seconds" result then result else set "wall_seconds" (float t) result

unfoldable pub text_item : String → Items → Bool
text_item text nil = false
text_item text (cons (str s) vs) = s == text || text_item text vs
text_item text (cons _ vs) = text_item text vs

-- The value with the time, unless it has one. `in` asks a text for a part and a list for an item, and
-- raises TypeError for what is neither; `{**result}` raises it for all but a dictionary.
unfoldable pub timed_value : Float → Value → Result Value
unfolding with_wall_seconds text_item contains codes
timed_value t (dict returned) = return (dict (with_wall_seconds t returned))
timed_value t (list vs) = if text_item "wall_seconds" vs then return (list vs) else raise type_error
timed_value t (str s) =
    if contains (codes "wall_seconds") (codes s) then return (str s) else raise type_error
timed_value t _ = raise type_error

-- `{**value}`
unfoldable pub spread : Value → Result Fields
spread (dict fields) = return fields
spread _ = raise type_error

abbrev pub failed_call : TaskRecord → Exception → Call
failed_call task e = record (about_task task) { error = some e }

-- One round of the loop of drain, by what run_once did: an exception is passed over, no task ends
-- the loop, and after a success `stop` is asked.
unfoldable pub continue_with :
    {E : Type 0}
    → Result (Option TaskRecord)
    → (stop : Option (E → Bool)) → (succeeded : ℕ) → World E
    → (skip onward : Option (ℕ × World E)) → Option (ℕ × World E)
continue_with (raise e) stop succeeded w skip onward = skip
continue_with (return none) stop succeeded w skip onward = some (succeeded, w)
continue_with (return (some task)) none succeeded w skip onward = onward
continue_with (return (some task)) (some asks) succeeded w skip onward =
    if asks w.outside then some (succeeded + 1, w) else onward

module _ {E : Type 0} (env : Env) (wk : Worker E) (run_id : String) where
  -- An event about the task whose payload begins with the worker and the attempt.
  unfoldable pub task_event : TaskRecord → String → (attempt : ℕ) → Fields → Act E (Unit {0})
  task_event task kind attempt more =
      record_event env run_id (some task.task_id) kind
        (field "worker_id" (str wk.worker_id) (field "attempt" (int (pos attempt)) more))

  unfoldable pub store_status :
      TaskRecord → TaskStatus → Option Fields → Option String → Act E (Unit {0})
  store_status task status result error =
      on_store (update_task_status task.task_id status result error)

  -- What every outcome ends with: the status of the run, the hooks of the outcome and those of the
  -- run. It gives the task with the payload that the hooks left.
  unfoldable pub report : (task working : TaskRecord) → (point : String) → Call → Act E TaskRecord
  report task working point call = do
    status ← refresh_run_status env run_id
    after ← fire_hooks env wk point call
    note_hooks env wk run_id task point
    status_changed env wk run_id status
    pure (elim after.task [ none ↦ working | some changed ↦ changed ])

  unfoldable pub on_timeout :
      (task working : TaskRecord) (attempt : ℕ) → Exception → Act E (Option TaskRecord)
  unfolding store_status task_event report
  on_timeout task working attempt e = do
    store_status task TaskStatus.timed_out none (some (message e))
    task_event task "task_timed_out" attempt (field "error" (str (message e)) end)
    report task working "after_task_timeout" (about_task working)
    throw e

  -- Under the budget the task is PENDING again and the exception goes on; else nothing happens.
  unfoldable pub handle_oom : TaskRecord → Exception → (attempt : ℕ) → Act E (Unit {0})
  unfolding store_status task_event status_changed
  handle_oom task e attempt = do
    events ← ask (list_events run_id)
    let prior = count_events task.task_id "task_oom_requeued" events
    if leb wk.max_oom_retries prior
        then pure tt
        else (store_status task TaskStatus.pending none (some (message e))
            >> (task_event task "task_oom_requeued" attempt (
                  field "oom_attempt" (int (pos (prior + 1))) (
                    field "max_oom_retries" (int (pos wk.max_oom_retries))
                      (field "error" (str (message e)) end)))
                >> (refresh_run_status env run_id >>= λ status.
                    status_changed env wk run_id status >> throw e)))

  unfoldable pub retry_or_fail :
      TaskRecord → Exception → (attempt max_attempts : ℕ) → Act E (Unit {0})
  unfolding store_status task_event
  retry_or_fail task e attempt max_attempts =
      if ltb attempt max_attempts
      then store_status task TaskStatus.pending none (some (message e))
        >> task_event task "task_retry_scheduled" attempt
            (field "max_attempts" (int (pos max_attempts)) (field "error" (str (message e)) end))
      else store_status task TaskStatus.failed none (some (message e))
        >> task_event task "task_failed" attempt (field "error" (str (message e)) end)

  -- `self._resolve_max_attempts(working_task)` reads the payload that the handler and hooks left.
  unfoldable pub on_failure :
      (task working : TaskRecord) (attempt : ℕ) → Exception → Act E (Option TaskRecord)
  unfolding handle_oom retry_or_fail report
  on_failure task working attempt e = do
    if ltb 0 wk.max_oom_retries && is_oom_error e then handle_oom task e attempt else pure tt
    max_attempts ← lift (resolve_max_attempts env wk working)
    retry_or_fail task e attempt max_attempts
    after ← report task working "after_task_failure" (failed_call working e)
    lift (resolve_max_attempts env wk after)
    throw e

  -- The stored error is the status; the list of errors that the program formats after it is left out.
  unfoldable pub record_degenerate :
      (task working : TaskRecord)
      → Fields
      → ValidationOutcome
      → (attempt : ℕ) → Act E (Option TaskRecord)
  unfolding store_status task_event report
  record_degenerate task working result outcome attempt = do
    store_status task TaskStatus.degenerate (some result)
        (some (result_status_value outcome.status))
    write_artifact env wk task result
    task_event task "task_degenerate" attempt (
        field "validation_status" (str (result_status_value outcome.status))
          (field "validation_errors" (list (message_list outcome.validation_errors)) end))
    report task working "after_task_failure" (failed_call working degenerate_result)
    throw degenerate_result

  -- The hooks may change the result before it is stored.
  unfoldable pub record_success :
      (task working : TaskRecord) → Fields → (attempt : ℕ) → Act E (Option TaskRecord)
  unfolding store_status task_event status_changed
  record_success task working result attempt = do
    call ←
        fire_hooks env wk "after_task_success"
          (record (about_task working) { result = some result })
    note_hooks env wk run_id task "after_task_success"
    let final : Fields = elim call.result [ none ↦ result | some changed ↦ changed ]
    store_status task TaskStatus.succeeded (some final) none
    write_artifact env wk task final
    task_event task "task_succeeded" attempt end
    status ← refresh_run_status env run_id
    status_changed env wk run_id status
    pure (some task)

  unfoldable pub on_result :
      (task working : TaskRecord) (attempt : ℕ)
      → (wall_seconds : Float) → Value
      → Act E (Option TaskRecord)
  unfolding record_degenerate record_success timed_value spread is_rejected message_list
  on_result task working attempt wall_seconds value = do
    timed ← lift (timed_value wall_seconds value)
    outcome ← lift (validate_result (get_or "method" null working.payload) timed)
    fields ← lift (spread timed)
    let judged = set "_validation_status" (str (result_status_value outcome.status)) fields
    if is_rejected outcome.status
        then record_degenerate task working
            (set "_validation_errors" (list (message_list outcome.validation_errors)) judged)
            outcome attempt
        else record_success task working judged attempt

  unfoldable pub on_outcome :
      (task working : TaskRecord) (attempt : ℕ)
      → (wall_seconds : Float) → Result Value
      → Act E (Option TaskRecord)
  unfolding on_timeout on_failure on_result
  on_outcome task working attempt wall_seconds (return value) =
      on_result task working attempt wall_seconds value
  on_outcome task working attempt wall_seconds (raise timeout_error) =
      on_timeout task working attempt timeout_error
  on_outcome task working attempt wall_seconds (raise e) = on_failure task working attempt e

  -- The steps between the lease and the call of the handler: the attempt number, and the task with the
  -- copy of its payload that the hooks have seen.
  unfoldable pub start_task : TaskRecord → Act E (ℕ × TaskRecord)
  unfolding task_event
  start_task task = do
    attempt ← on_store (increment_task_attempts task.task_id)
    on_store (mark_task_running task.task_id)
    task_event task "task_running" attempt end
    refresh_run_status env run_id
    seed_run env wk run_id
    call ← fire_hooks env wk "before_task" (about_task task)
    note_hooks env wk run_id task "before_task"
    pure (attempt, elim call.task [ none ↦ task | some working ↦ working ])

  unfoldable pub call_handler : Handler E → TaskRecord → Act E (HandlerRun E)
  call_handler handler working w = elim (resolve_timeout env wk working) [
    | raise e ↦ (raise e, w)
    | return limit ↦
        let done = execute env wk handler working limit w.outside in
        (return done, record w { outside = done.outside })
  ]

  unfoldable pub run_task : Handler E → TaskRecord → Act E (Option TaskRecord)
  unfolding start_task call_handler on_outcome
  run_task handler task = do
    started ← start_task task
    done ← call_handler handler started.1
    on_outcome task (record started.1 { payload = done.payload }) started.0 done.wall_seconds
        done.outcome

  unfoldable pub run_once : Handler E → Act E (Option TaskRecord)
  unfolding run_task
  run_once handler = do
    begin_run env wk run_id
    leased ← lease_next_task env wk run_id
    elim leased [ none ↦ pure none | some task ↦ run_task handler task ]

  unfoldable pub failed_tasks : List TaskRecord → List TaskRecord
  failed_tasks [] = []
  failed_tasks (t ∷ ts) =
      let rest = failed_tasks ts in
      if task_in t.status (TaskStatus.failed ∷ TaskStatus.timed_out ∷ TaskStatus.degenerate ∷ [])
      then t ∷ rest
      else rest

  -- The `while True` loop, on fuel: `none` means that the fuel ran out. `stop` is `stop_fn`, asked
  -- after each success.
  unfoldable pub drain_loop :
      ℕ → Handler E → (stop : Option (E → Bool)) → ℕ → World E → Option (ℕ × World E)
  unfolding run_once continue_with
  drain_loop zero handler stop succeeded w = none
  drain_loop (suc fuel) handler stop succeeded w =
      let (r, w') = run_once handler w in
      let skip = drain_loop fuel handler stop succeeded w' in
      let onward = drain_loop fuel handler stop (succeeded + 1) w' in
      continue_with r stop succeeded w' skip onward

  -- What drain does after its loop.
  unfoldable pub conclude : ℕ → Act E ℕ
  unfolding failed_tasks
  conclude succeeded w = elim (failed_tasks (list_tasks run_id w.store)) [
    | [] ↦ (return succeeded, w)
    | t ∷ ts ↦ (raise (degraded_run (map (λ f. f.task_key) (t ∷ ts)) succeeded), w)
  ]

  unfoldable pub drain_started :
      (mode : String) → (max_concurrent : ℕ) → (min_free_mb : Float) → Act E (Unit {0})
  drain_started mode max_concurrent min_free_mb = record_event env run_id none "drain_started" (
      field "worker_id" (str wk.worker_id) (
        field "mode" (str mode) (
          field "max_concurrent" (int (pos max_concurrent))
            (field "min_free_mb" (float min_free_mb) end))))

  unfoldable pub drain : ℕ → Handler E → Option (E → Bool) → World E → Option (Result ℕ × World E)
  unfolding drain_started drain_loop conclude
  drain fuel handler stop w =
      let begun = (drain_started "sequential" 8 (finite (pos 2000) 0) w).1 in
      elim (drain_loop fuel handler stop 0 begun) [
        | none ↦ none
        | some (succeeded, w') ↦ some (conclude succeeded w')
      ]
