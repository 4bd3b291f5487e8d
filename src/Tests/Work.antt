-- ===== src/Tests/Work.antt =====
-- The theorems on the worker (executor/worker.py) at a run with one task.
use fine_tune_harness.Base.{String, true, false, none, some, [], ◌∷◌, ◌≡◌, refl, lookup, insert}
use fine_tune_harness.Base.Int.{pos}
use fine_tune_harness.Effects.{raised, timeout_error, type_error, return, raise, message}
use fine_tune_harness.World.{World}
use fine_tune_harness.State.Value.{
  Value, null, str, list, dict, float, Fields, end, field, Float, nan, finite, get, get_or, set,
  has,
}
use fine_tune_harness.State.Value.{
  truthy, is_zero, or_else, is_null, number, is_nan, is_inf, float_le, float_lt, is_str,
}
use fine_tune_harness.State.Models.{RunStatus, TaskStatus, TaskRecord}
use fine_tune_harness.Evaluation.Validator.{
  succeeded_validated, failed_validation, Message, ValidationOutcome, validate_result,
  validate_dict, judge, final_status, poor_performance_of, max_from, degeneracy_reasons, is_empty,
  all_zero, bounded_vals, more_trainable, is_adapter_method, effective_method, is_true, is_false,
  test_at, number_at, when, check_metrics, extend, check_metric, overflows, lower_in, text_in,
}
use fine_tune_harness.Base.Text.{codes, lower, to_lower, codes_eq}
use fine_tune_harness.Evaluation.Validator.Degeneracy.{IsTrustworthy}
use fine_tune_harness.Evaluation.Validator.Soundness.{Item, IsSound, validate_result-IsSound}
use fine_tune_harness.Base.{Bool}
use fine_tune_harness.Executor.Session.{resolve_max_attempts}
use fine_tune_harness.Executor.Worker.{
  on_timeout, on_failure, on_result, with_wall_seconds, result_status_value, message_list,
  is_rejected,
}
use fine_tune_harness.Executor.Worker.Settling.{
  settled, hooked_result, on_timeout_settles, on_failure_settles, on_result_rejected,
  on_result_accepted, on_result_not_a_dict,
}
use fine_tune_harness.Executor.Conversion.{to_int, at_least_one}
use fine_tune_harness.Executor.Session.{Worker}
use fine_tune_harness.State.Value.{list, cons, nil}
use fine_tune_harness.Executor.Oom.{is_oom_error}
use fine_tune_harness.State.Memory.Recovery.{list_events, events_of_run, count_events}
use fine_tune_harness.Executor.Worker.Memory.{on_failure_requeues}
use fine_tune_harness.Base.{arith}
use fine_tune_harness.Tests.{task_as, world_of, env, worker}

abbrev task : TaskRecord
task = task_as "a" TaskStatus.running 1

abbrev busy_world : World (Unit {0})
busy_world = world_of RunStatus.running (("a", task) ∷ [])

on_timeout_settles_example :
    (on_timeout env worker "r" task task 1 timeout_error busy_world).1.store.tasks
    ≡ insert "a"
        (settled task TaskStatus.timed_out none (some (message timeout_error)))
        busy_world.store.tasks
unfolding lookup
on_timeout_settles_example =
    on_timeout_settles env worker "r" task task task 1 busy_world refl refl timeout_error

on_failure_settles_example :
    (on_failure env worker "r" task task 1 (raised "RuntimeError" "boom") busy_world).1.store.tasks
    ≡ insert "a"
        (settled task TaskStatus.pending none (some (message (raised "RuntimeError" "boom"))))
        busy_world.store.tasks
unfolding lookup resolve_max_attempts to_int at_least_one get_or get
on_failure_settles_example =
    on_failure_settles env worker "r" task task task 1 busy_world refl refl
      (raised "RuntimeError" "boom") 3 refl refl

on_result_not_a_dict_example :
    on_result env worker "r" task task 1
      (finite (pos 1) 0)
      (list (cons (str "wall_seconds") nil))
      busy_world
    ≡ (raise type_error, busy_world)
on_result_not_a_dict_example =
    on_result_not_a_dict env worker "r" task task 1 busy_world (finite (pos 1) 0)
      (list (cons (str "wall_seconds") nil)) (λ returned e. cc)

abbrev good : Fields
good = field "accuracy" (float (finite (pos 3) 2)) end

abbrev bad : Fields
bad = field "accuracy" (float nan) end

abbrev good_outcome : ValidationOutcome
good_outcome = record {
  status = succeeded_validated;
  poor_performance = some false;
  metric_validated = true;
  degeneracy_flag = false;
  validation_errors = [];
  validation_warnings = [];
}

good_verdict :
    validate_result
      (get_or "method" null task.payload)
      (dict (with_wall_seconds (finite (pos 1) 0) good))
    ≡ return good_outcome
unfolding validate_result validate_dict judge final_status poor_performance_of max_from
    degeneracy_reasons is_empty all_zero bounded_vals more_trainable is_adapter_method
    effective_method is_true is_false test_at number_at when check_metrics extend check_metric
    overflows lower_in text_in get get_or has set truthy is_zero or_else is_null number is_nan
    is_inf float_le float_lt is_str codes lower to_lower codes_eq with_wall_seconds is_rejected
    result_status_value
good_verdict = refl

abbrev bad_outcome : ValidationOutcome
bad_outcome = record {
  status = failed_validation;
  poor_performance = none;
  metric_validated = false;
  degeneracy_flag = false;
  validation_errors = Message.metric_nan "accuracy" ∷ [];
  validation_warnings = [];
}

bad_verdict :
    validate_result
      (get_or "method" null task.payload)
      (dict (with_wall_seconds (finite (pos 1) 0) bad))
    ≡ return bad_outcome
unfolding validate_result validate_dict judge final_status poor_performance_of max_from
    degeneracy_reasons is_empty all_zero bounded_vals more_trainable is_adapter_method
    effective_method is_true is_false test_at number_at when check_metrics extend check_metric
    overflows lower_in text_in get get_or has set truthy is_zero or_else is_null number is_nan
    is_inf float_le float_lt is_str codes lower to_lower codes_eq with_wall_seconds is_rejected
    result_status_value
bad_verdict = refl

on_result_accepted_example :
    (on_result env worker "r" task task 1 (finite (pos 1) 0) (dict good) busy_world).1.store.tasks
    ≡ insert "a"
        (settled task TaskStatus.succeeded
          (some (
            hooked_result worker task
              (set "_validation_status"
                (str "SUCCEEDED_VALIDATED")
                (with_wall_seconds (finite (pos 1) 0) good))
              tt))
          none)
        busy_world.store.tasks
unfolding lookup is_rejected result_status_value
on_result_accepted_example =
    on_result_accepted env worker "r" task task task 1 busy_world refl refl (finite (pos 1) 0) good
      good_outcome good_verdict refl

on_result_rejected_example :
    (on_result env worker "r" task task 1 (finite (pos 1) 0) (dict bad) busy_world).1.store.tasks
    ≡ insert "a"
        (settled task TaskStatus.degenerate
          (some (
            set "_validation_errors" (list (message_list bad_outcome.validation_errors)) (
              set "_validation_status"
                (str "FAILED_VALIDATION")
                (with_wall_seconds (finite (pos 1) 0) bad))))
          (some "FAILED_VALIDATION"))
        busy_world.store.tasks
unfolding lookup is_rejected result_status_value
on_result_rejected_example =
    on_result_rejected env worker "r" task task task 1 busy_world refl refl (finite (pos 1) 0) bad
      bad_outcome bad_verdict refl

abbrev timed_good : Fields
timed_good = with_wall_seconds (finite (pos 1) 0) good

validate_result-IsSound_example :
    ((key : String) (raw : Value) (v : Float)
      → Item key raw timed_good
      → number raw ≡ some v
      → IsSound key v)
    × ((adapter : Bool) × (is_adapter_method (effective_method null timed_good) ≡ return adapter)
        × IsTrustworthy adapter timed_good)
unfolding get_or get
validate_result-IsSound_example =
    validate_result-IsSound null timed_good good_outcome good_verdict refl

-- A worker of a concurrent drain with a budget of two requeues.
abbrev lenient : Worker (Unit {0})
lenient = record worker { max_oom_retries = 2 }

on_failure_requeues_example :
    (on_failure env lenient "r" task task 5 (raised "OutOfMemoryError" "") busy_world).1.store.tasks
    ≡ insert "a"
        (settled task TaskStatus.pending none (some (message (raised "OutOfMemoryError" ""))))
        busy_world.store.tasks
unfolding lookup is_oom_error list_events events_of_run count_events
on_failure_requeues_example =
    on_failure_requeues env lenient "r" task task task 5 busy_world refl refl
      (raised "OutOfMemoryError" "") refl (ground arith)
