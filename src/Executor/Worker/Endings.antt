-- ===== src/Executor/Worker/Endings.antt =====
-- Every outcome of a task (executor/worker.py) leaves fewer tries, whether it raises or not.
use fine_tune_harness.Base.{
  ℕ, ◌+◌, ◌≤◌, ◌<◌, String, false, ◌&&◌, Option, none, some, ltb, if◌then◌else◌, ◌≡◌, refl, arith,
}
use fine_tune_harness.Effects.{
  Exception, value_error, key_error, type_error, attribute_error, overflow_error, timeout_error,
  approval_error, degenerate_result, degraded_run, raised, Result, return, raise, pure, message,
}
use fine_tune_harness.World.{Env, Act}
use fine_tune_harness.State.Value.{Value, null, Fields, end, Float, get_or}
use fine_tune_harness.State.Models.{TaskStatus, pending, leased, running, TaskRecord}
use fine_tune_harness.Orchestrator.Lifecycle.{task_is}
use fine_tune_harness.Evaluation.Validator.{ValidationOutcome, validate_result}
use fine_tune_harness.Executor.Oom.{is_oom_error}
use fine_tune_harness.Executor.Session.{Worker, about_task, resolve_max_attempts}
use fine_tune_harness.Executor.Worker.{
  store_status, on_timeout, handle_oom, retry_or_fail, on_failure, record_degenerate,
  record_success, on_result, on_outcome, is_rejected, timed_value, spread,
}
use fine_tune_harness.Executor.Worker.Frames.{
  Keeps, Keeps-lift, refresh-Keeps, fire-Keeps, note-Keeps, status_changed-Keeps, artifact-Keeps,
  task_event-Keeps, report-Keeps,
}
use fine_tune_harness.Executor.Worker.Triples.{
  Tasks, Triple, Triple-bind, Triple-pure, Triple-throw, Triple-if, Triple-keep, Triple-lift,
  Triple-given, Triple-returns,
}
use fine_tune_harness.Executor.Worker.Attempts.{
  IsCapped, Stage, Less, Less-ended, Less-retried, running-Less, store_status_lem,
}

module _ {E : Type 0} (env : Env) (wk : Worker E) (run_id : String) (most : ℕ) (tried before : ℕ)
    (task : TaskRecord) where
  abbrev AtStage : TaskStatus → Tasks
  AtStage status = Stage env wk most task.task_id tried before status (tried + 1)

  abbrev Fewer : Tasks
  Fewer = Less env wk most before

  -- Once fewer tries are left, a step that leaves the tasks alone keeps it so.
  kept : {A : Type 0} {m : Act E A} → Keeps m → Triple Fewer m (λ _. Fewer) Fewer
  kept k = Triple-keep k (λ d h. h)

  still_running :
      {A : Type 0} {m : Act E A} → Keeps m → Triple (AtStage running) m (λ _. AtStage running) Fewer
  still_running k = Triple-keep k (running-Less env wk most task.task_id tried before)

  ended :
      (status : TaskStatus) (result : Option Fields) (error : Option String)
      → task_is status pending ≡ false
      → task_is status leased ≡ false
      → Triple
          (AtStage running)
          (store_status env wk run_id task status result error)
          (λ _. Fewer)
          Fewer
  ended status result error a b =
      Triple-returns (λ _ d. Less-ended env wk most task.task_id tried before a b)
        (store_status_lem env wk most task.task_id tried before run_id task status result error
          refl)

  on_timeout-Less :
      (working : TaskRecord) (n : ℕ) (e : Exception)
      → Triple (AtStage running) (on_timeout env wk run_id task working n e) (λ _. Fewer) Fewer
  unfolding on_timeout task_is
  on_timeout-Less working n e = Triple-bind (ended TaskStatus.timed_out _ _ refl refl) λ _.
      Triple-bind (kept (task_event-Keeps env wk run_id task _ n _))
        λ _. Triple-bind (kept (report-Keeps env wk run_id task working _ _)) λ _. Triple-throw e

  retried :
      tried < most
      → (error : Option String)
      → Triple
          (AtStage running)
          (store_status env wk run_id task pending none error)
          (λ _. Fewer)
          Fewer
  retried left error =
      Triple-returns (λ _ d. Less-retried env wk most task.task_id tried before left)
        (store_status_lem env wk most task.task_id tried before run_id task pending none error refl)

  retry_or_fail-Less :
      (e : Exception) (n : ℕ)
      → n ≤ most
      → Triple
          (AtStage running)
          (retry_or_fail env wk run_id task e (tried + 1) n)
          (λ _. Fewer)
          Fewer
  unfolding retry_or_fail task_is
  retry_or_fail-Less e n capped =
      Triple-if (ltb (tried + 1) n)
        (λ again.
          Triple-bind (retried (ground arith) (some (message e)))
            λ _. kept (task_event-Keeps env wk run_id task _ _ _))
        (λ over.
          Triple-bind (ended TaskStatus.failed _ _ refl refl)
            λ _. kept (task_event-Keeps env wk run_id task _ _ _))

  on_failure-Less :
      (working : TaskRecord) (e : Exception)
      → wk.max_oom_retries ≡ 0
      → IsCapped env wk most working
      → Triple
          (AtStage running)
          (on_failure env wk run_id task working (tried + 1) e)
          (λ _. Fewer)
          Fewer
  unfolding on_failure IsCapped
  on_failure-Less working e no_oom capped = Triple-bind no_requeue λ _.
      Triple-bind
        (Triple-lift (resolve_max_attempts env wk working)
          (running-Less env wk most task.task_id tried before))
        λ n. Triple-given λ resolved. Triple-bind (retry_or_fail-Less e n (capped n resolved)) λ _.
          Triple-bind (kept (report-Keeps env wk run_id task working _ _)) λ after.
            Triple-bind (kept (Keeps-lift (resolve_max_attempts env wk after))) λ _. Triple-throw e
    where
      no_requeue :
          Triple
            (AtStage running)
            (if ltb 0 wk.max_oom_retries && is_oom_error e
              then handle_oom env wk run_id task e (tried + 1)
              else pure tt)
            (λ _. AtStage running)
            Fewer
      no_requeue = rw no_oom (Triple-pure tt)

  record_degenerate-Less :
      (working : TaskRecord) (result : Fields) (outcome : ValidationOutcome) (n : ℕ)
      → Triple
          (AtStage running)
          (record_degenerate env wk run_id task working result outcome n)
          (λ _. Fewer)
          Fewer
  unfolding record_degenerate task_is
  record_degenerate-Less working result outcome n =
      Triple-bind (ended TaskStatus.degenerate _ _ refl refl) λ _.
        Triple-bind (kept (artifact-Keeps env wk task result)) λ _.
          Triple-bind (kept (task_event-Keeps env wk run_id task _ n _)) λ _.
            Triple-bind (kept (report-Keeps env wk run_id task working _ _)) λ _. Triple-throw _

  record_success-Less :
      (working : TaskRecord) (result : Fields) (n : ℕ)
      → Triple
          (AtStage running)
          (record_success env wk run_id task working result n)
          (λ _. Fewer)
          Fewer
  unfolding record_success task_is
  record_success-Less working result n =
      Triple-bind
        (still_running (
          fire-Keeps env wk "after_task_success"
            (record (about_task working) { result = some result })))
        λ call.
          let final : Fields = elim call.result [ none ↦ result | some changed ↦ changed ] in
          Triple-bind (still_running (note-Keeps env wk run_id task "after_task_success")) λ _.
            Triple-bind (ended TaskStatus.succeeded (some final) none refl refl) λ _.
              Triple-bind (kept (artifact-Keeps env wk task final)) λ _.
                Triple-bind (kept (task_event-Keeps env wk run_id task "task_succeeded" n end)) λ _.
                  Triple-bind (kept (refresh-Keeps env run_id)) λ status.
                    Triple-bind (kept (status_changed-Keeps env wk run_id status))
                      λ _. Triple-pure (some task)

  on_result-Less :
      (working : TaskRecord) (n : ℕ) (wall_seconds : Float) (value : Value)
      → Triple
          (AtStage running)
          (on_result env wk run_id task working n wall_seconds value)
          (λ _. Fewer)
          Fewer
  unfolding on_result
  on_result-Less working n wall_seconds value =
      Triple-bind (still_running (Keeps-lift (timed_value wall_seconds value))) λ timed.
        Triple-bind
          (still_running
            (Keeps-lift (validate_result (get_or "method" null working.payload) timed)))
          λ outcome. Triple-bind (still_running (Keeps-lift (spread timed))) λ fields.
            Triple-if (is_rejected outcome.status) (λ _. record_degenerate-Less working _ outcome n)
              (λ _. record_success-Less working _ n)

  pub on_outcome-Less :
      (working : TaskRecord) (wall_seconds : Float) (outcome : Result Value)
      → wk.max_oom_retries ≡ 0
      → IsCapped env wk most working
      → Triple
          (AtStage running)
          (on_outcome env wk run_id task working (tried + 1) wall_seconds outcome)
          (λ _. Fewer)
          Fewer
  unfolding on_outcome
  on_outcome-Less working wall_seconds (return value) no_oom capped =
      on_result-Less working (tried + 1) wall_seconds value
  on_outcome-Less working wall_seconds (raise timeout_error) no_oom capped =
      on_timeout-Less working (tried + 1) timeout_error
  on_outcome-Less working wall_seconds (raise value_error) no_oom capped =
      on_failure-Less working value_error no_oom capped
  on_outcome-Less working wall_seconds (raise key_error) no_oom capped =
      on_failure-Less working key_error no_oom capped
  on_outcome-Less working wall_seconds (raise type_error) no_oom capped =
      on_failure-Less working type_error no_oom capped
  on_outcome-Less working wall_seconds (raise attribute_error) no_oom capped =
      on_failure-Less working attribute_error no_oom capped
  on_outcome-Less working wall_seconds (raise overflow_error) no_oom capped =
      on_failure-Less working overflow_error no_oom capped
  on_outcome-Less working wall_seconds (raise approval_error) no_oom capped =
      on_failure-Less working approval_error no_oom capped
  on_outcome-Less working wall_seconds (raise degenerate_result) no_oom capped =
      on_failure-Less working degenerate_result no_oom capped
  on_outcome-Less working wall_seconds (raise (degraded_run ks n)) no_oom capped =
      on_failure-Less working (degraded_run ks n) no_oom capped
  on_outcome-Less working wall_seconds (raise (raised name text)) no_oom capped =
      on_failure-Less working (raised name text) no_oom capped
