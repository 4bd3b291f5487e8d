-- ===== src/Evaluation/Comparator/Tasks.antt =====
-- evaluation/comparator.py: the comparison of one task over the runs (the body of the loop over the
-- task keys in compare_runs). `table` gives the task of a run under the key; `baseline` is the first
-- run and `later` are the others. A set's order is that of the baseline's metrics.
use fine_tune_harness.Base.{
  String, Bool, true, false, ◌&&◌, ◌||◌, Option, none, some, List, [], ◌∷◌, ◌++◌, if◌then◌else◌,
  ◌==◌, Dict, lookup, insert, has_key,
}
use fine_tune_harness.Effects.{Result, return, raise}
use fine_tune_harness.State.Value.{Fields, Float, get}
use fine_tune_harness.State.Models.{TaskRecord, task_status_value}
use fine_tune_harness.Evaluation.Validator.{text_in}
use fine_tune_harness.Evaluation.Floats.{subtract, float_of}
use fine_tune_harness.Evaluation.Comparator.{
  MetricThresholds, is_metric_regression, numeric_metrics, Reason, result_is_valid_for_comparison,
}

pub record TaskComparison : Type 0 where
  pub task_key : String
  pub status_by_run : Dict String
  pub result_by_run : Dict (Option Fields)
  pub metric_deltas : Dict (Dict Float)
  pub wall_seconds_by_run : Dict (Option Float)
  pub is_regression : Bool
  pub is_improvement : Bool
  pub metric_regressions : Dict (Dict Float)
  pub excluded_from_metrics : Dict Reason

abbrev pub fail_statuses : List String
fail_statuses = "failed" ∷ "timed_out" ∷ "cancelled" ∷ "degenerate" ∷ "missing" ∷ []

abbrev pub ok_statuses : List String
ok_statuses = "succeeded" ∷ []

-- A statement after one that may raise.
unfoldable pub then_do : {A B : Type 0} → Result A → (A → Result B) → Result B
then_do (raise e) f = raise e
then_do (return a) f = f a

unfoldable pub status_of : Option TaskRecord → String
unfolding task_status_value
status_of none = "missing"
status_of (some task) = task_status_value task.status

unfoldable pub result_of : Option TaskRecord → Option Fields
result_of none = none
result_of (some task) = task.result

-- `{r: f(r) for r in run_ids}`, added to `d`.
unfoldable pub collect : {A : Type 0} → (String → A) → List String → Dict A → Dict A
collect f [] d = d
collect f (r ∷ rs) d = collect f rs (insert r (f r) d)

-- What is left out of the metrics: for this task, and the task keys of every run.
pub record Excluded : Type 0 where
  pub reasons : Dict Reason
  pub tasks : Dict (List String)

unfoldable pub key_list : Option (List String) → List String
key_list none = []
key_list (some keys) = keys

-- The result of the run is left out if there is one and there is a reason.
unfoldable pub note_reason :
    (task_key run_id : String) → Option Fields → Option Reason → Excluded → Excluded
unfolding key_list
note_reason task_key run_id none _ ex = ex
note_reason task_key run_id (some _) none ex = ex
note_reason task_key run_id (some _) (some reason) ex = record {
  reasons = insert run_id reason ex.reasons;
  tasks = insert run_id (key_list (lookup run_id ex.tasks) ++ task_key ∷ []) ex.tasks;
}

unfoldable pub exclude :
    (task_key : String) → (String → Option Fields) → List String → Excluded → Result Excluded
unfolding then_do note_reason result_is_valid_for_comparison
exclude task_key results [] ex = return ex
exclude task_key results (r ∷ rs) ex =
    then_do (result_is_valid_for_comparison (results r))
      (λ verdict. exclude task_key results rs (note_reason task_key r (results r) verdict ex))

pub record Deltas : Type 0 where
  pub deltas : Dict (Dict Float)
  pub regressions : Dict (Dict Float)

unfoldable pub or_empty : Option (Dict Float) → Dict Float
or_empty none = []
or_empty (some d) = d

-- `d.setdefault(metric_key, {})[run_id] = delta`
unfoldable pub put_delta :
    (metric_key run_id : String) → Float → Dict (Dict Float) → Dict (Dict Float)
unfolding or_empty
put_delta metric_key run_id delta d =
    insert metric_key (insert run_id delta (or_empty (lookup metric_key d))) d

unfoldable pub note_delta :
    MetricThresholds → (metric_key run_id : String) → Float → Deltas → Deltas
unfolding put_delta is_metric_regression
note_delta thresholds metric_key run_id delta acc = record {
  deltas = put_delta metric_key run_id delta acc.deltas;
  regressions =
      if is_metric_regression metric_key delta thresholds
      then put_delta metric_key run_id delta acc.regressions
      else acc.regressions;
}

-- The metrics of both runs.
unfoldable pub add_deltas :
    MetricThresholds
    → (run_id : String) → (baseline_metrics run_metrics : Dict Float) → Deltas
    → Deltas
unfolding subtract note_delta
add_deltas thresholds run_id [] run_metrics acc = acc
add_deltas thresholds run_id ((metric_key, base) ∷ rest) run_metrics acc =
    add_deltas thresholds run_id rest run_metrics (
      if metric_key == "wall_seconds" then acc else elim (lookup metric_key run_metrics) [
        | none ↦ acc
        | some value ↦ note_delta thresholds metric_key run_id (subtract value base) acc
      ])

-- The loop over the later runs.
unfoldable pub later_deltas :
    MetricThresholds
    → (baseline : String) → (String → Option Fields)
    → Dict Reason
    → (baseline_metrics : Dict Float) → List String
    → Deltas
    → Result Deltas
unfolding then_do add_deltas numeric_metrics
later_deltas thresholds baseline results left_out baseline_metrics [] acc = return acc
later_deltas thresholds baseline results left_out baseline_metrics (r ∷ rs) acc =
    then_do
      (if has_key r left_out || has_key baseline left_out
        then return acc
        else then_do (numeric_metrics (results r))
            (λ run_metrics. return (add_deltas thresholds r baseline_metrics run_metrics acc)))
      (λ acc'. later_deltas thresholds baseline results left_out baseline_metrics rs acc')

-- The wall seconds of a result.
unfoldable pub wall_seconds_of : Option Fields → Result (Option Float)
unfolding get then_do float_of
wall_seconds_of none = return none
wall_seconds_of (some result) = elim (get "wall_seconds" result) [
  | none ↦ return none
  | some raw ↦ elim (float_of raw) [
    | none ↦ return none
    | some number ↦ then_do number (λ v. return (some v))
  ]
]

unfoldable pub wall_seconds_by_run :
    (String → Option Fields) → List String → Dict (Option Float) → Result (Dict (Option Float))
unfolding then_do wall_seconds_of
wall_seconds_by_run results [] d = return d
wall_seconds_by_run results (r ∷ rs) d =
    then_do (wall_seconds_of (results r)) (λ wall. wall_seconds_by_run results rs (insert r wall d))

-- `any(s in statuses for s in later_statuses)`
unfoldable pub any_in : (statuses : List String) → (String → Option TaskRecord) → List String → Bool
unfolding text_in status_of
any_in statuses table [] = false
any_in statuses table (r ∷ rs) = text_in (status_of (table r)) statuses || any_in statuses table rs

-- What the comparison of one task adds to the report.
pub record Outcome : Type 0 where
  pub comparison : TaskComparison
  pub status_regression : Bool
  pub status_improvement : Bool
  pub has_metric_regression : Bool
  pub excluded_tasks : Dict (List String)

-- `bool(d)`
unfoldable pub non_empty : Dict (Dict Float) → Bool
non_empty [] = false
non_empty (_ ∷ _) = true

unfoldable pub outcome_of :
    (baseline : String) (later : List String) (table : String → Option TaskRecord)
    (task_key : String)
    → Excluded
    → Deltas
    → Dict (Option Float)
    → Outcome
unfolding text_in status_of result_of collect any_in non_empty
outcome_of baseline later table task_key ex acc walls =
    let baseline_status = status_of (table baseline) in
    let is_regression = text_in baseline_status ok_statuses && any_in fail_statuses table later in
    let is_improvement = text_in baseline_status fail_statuses && any_in ok_statuses table later in
    record {
      comparison = record {
        task_key = task_key;
        status_by_run = collect (λ r. status_of (table r)) (baseline ∷ later) [];
        result_by_run = collect (λ r. result_of (table r)) (baseline ∷ later) [];
        metric_deltas = acc.deltas;
        wall_seconds_by_run = walls;
        is_regression = is_regression || non_empty acc.regressions;
        is_improvement = is_improvement;
        metric_regressions = acc.regressions;
        excluded_from_metrics = ex.reasons;
      };
      status_regression = is_regression;
      status_improvement = is_improvement;
      has_metric_regression = non_empty acc.regressions;
      excluded_tasks = ex.tasks;
    }

unfoldable pub compare_task :
    MetricThresholds
    → (baseline : String) (later : List String) (table : String → Option TaskRecord)
      (excluded_tasks : Dict (List String)) (task_key : String)
    → Result Outcome
unfolding then_do result_of exclude numeric_metrics later_deltas wall_seconds_by_run outcome_of
compare_task thresholds baseline later table excluded_tasks task_key =
    let results : String → Option Fields = λ r. result_of (table r) in
    then_do
      (exclude task_key results (baseline ∷ later)
        (record { reasons = []; tasks = excluded_tasks }))
      (λ ex.
        then_do
          (if has_key baseline ex.reasons then return [] else numeric_metrics (results baseline))
          (λ metrics.
            then_do
              (later_deltas thresholds baseline results ex.reasons metrics later
                (record { deltas = []; regressions = [] }))
              (λ acc.
                then_do (wall_seconds_by_run results (baseline ∷ later) [])
                  (λ walls. return (outcome_of baseline later table task_key ex acc walls)))))
