-- ===== src/Evaluation/Comparator/Reports.antt =====
-- evaluation/comparator.py: compare_runs. `wall_total` is what `round(sum(timed), 3)` gives.
use fine_tune_harness.Base.{
  String, Bool, false, not, ◌&&◌, ◌||◌, Option, none, some, List, [], ◌∷◌, ◌++◌, if◌then◌else◌,
  ◌==◌, Dict, lookup, insert,
}
use fine_tune_harness.Effects.{Exception, raised, value_error, key_error, Result, return, raise}
use fine_tune_harness.State.Value.{Float}
use fine_tune_harness.State.Models.{RunRecord, TaskRecord}
use fine_tune_harness.State.Memory.{Store, get_run, list_tasks}
use fine_tune_harness.Evaluation.Validator.{text_in}
use fine_tune_harness.Evaluation.Comparator.{
  MetricThresholds, default_thresholds, ComparabilityIssue, is_error, check_comparability,
}
use fine_tune_harness.Evaluation.Comparator.Tasks.{then_do, TaskComparison, Outcome, compare_task}
use Prim.Native.String.{compare}
use text.Mathlib.Text.{is_lt}
use fine_tune_harness.Evaluation.Comparator.Snapshots.{RunSnapshot, timed, snapshot}

-- `{t.task_key: t for t in tasks}`: the last task under a key stands.
unfoldable pub by_key : List TaskRecord → Dict TaskRecord → Dict TaskRecord
by_key [] d = d
by_key (t ∷ ts) d = by_key ts (insert t.task_key t d)

-- The first loop: each run, or KeyError.
unfoldable pub load_runs : Store → List String → Dict RunRecord → Result (Dict RunRecord)
unfolding get_run
load_runs store [] d = return d
load_runs store (r ∷ rs) d = elim (get_run r store) [
  | none ↦ raise key_error
  | some run ↦ load_runs store rs (insert r run d)
]

-- `runs[run_id]`
unfoldable pub loaded : {A : Type 0} → Option A → Result A
loaded none = raise key_error
loaded (some run) = return run

unfoldable pub check_all :
    Dict RunRecord → RunRecord → List String → Result (List ComparabilityIssue)
unfolding then_do loaded check_comparability
check_all runs baseline [] = return []
check_all runs baseline (r ∷ rs) = then_do (loaded (lookup r runs)) (λ run.
    then_do (check_all runs baseline rs)
      (λ rest. return (check_comparability baseline run ++ rest)))

unfoldable pub any_error : List ComparabilityIssue → Bool
unfolding is_error
any_error [] = false
any_error (i ∷ is) = is_error i || any_error is

-- What is read of the runs.
pub record Tables : Type 0 where
  pub tasks_by_run : Dict (Dict TaskRecord)
  pub snapshots : Dict RunSnapshot

unfoldable pub load_tasks :
    (wall_total : List Float → Float)
    → Store
    → Dict RunRecord
    → List String
    → Tables
    → Result Tables
unfolding then_do loaded list_tasks timed by_key snapshot
load_tasks wall_total store runs [] tables = return tables
load_tasks wall_total store runs (r ∷ rs) tables = then_do (loaded (lookup r runs)) (λ run.
    then_do (timed (list_tasks r store)) (λ walls. load_tasks wall_total store runs rs (record {
      tasks_by_run = insert r (by_key (list_tasks r store) []) tables.tasks_by_run;
      snapshots = insert r (snapshot wall_total run (list_tasks r store) walls) tables.snapshots;
    })))

-- `sorted(all_keys)`, where a set has each key once.
unfoldable pub insert_key : String → List String → List String
insert_key k [] = k ∷ []
insert_key k (j ∷ js) =
    let later = insert_key k js in
    if k == j then j ∷ js else if is_lt (compare k j) then k ∷ j ∷ js else j ∷ later

unfoldable pub keys_of : Dict TaskRecord → List String → List String
unfolding insert_key
keys_of [] ks = ks
keys_of ((k, _) ∷ d) ks = keys_of d (insert_key k ks)

unfoldable pub all_keys : Dict (Dict TaskRecord) → List String → List String
unfolding keys_of
all_keys [] ks = ks
all_keys ((_, tasks) ∷ d) ks = all_keys d (keys_of tasks ks)

-- The task of a run under a key.
unfoldable pub find_task : Dict (Dict TaskRecord) → (task_key run_id : String) → Option TaskRecord
find_task tables task_key run_id = elim (lookup run_id tables) [
  | none ↦ none
  | some tasks ↦ lookup task_key tasks
]

-- What the loop over the task keys has gathered.
pub record Progress : Type 0 where
  pub task_comparisons : List TaskComparison
  pub regressions : List String
  pub improvements : List String
  pub metric_regressions : List String
  pub excluded_tasks : Dict (List String)

unfoldable pub append_if : Bool → String → List String → List String
append_if b k ks = if b then ks ++ k ∷ [] else ks

unfoldable pub add_outcome : String → Outcome → Progress → Progress
unfolding append_if text_in
add_outcome task_key o p =
    let regressions = append_if o.status_regression task_key p.regressions in
    record {
      task_comparisons = p.task_comparisons ++ o.comparison ∷ [];
      regressions = regressions;
      improvements = append_if o.status_improvement task_key p.improvements;
      metric_regressions =
          append_if (o.has_metric_regression && not (text_in task_key regressions)) task_key
            p.metric_regressions;
      excluded_tasks = o.excluded_tasks;
    }

unfoldable pub compare_tasks :
    MetricThresholds
    → (baseline : String) (later : List String) → Dict (Dict TaskRecord)
    → List String
    → Progress
    → Result Progress
unfolding then_do compare_task find_task add_outcome
compare_tasks thresholds baseline later tables [] p = return p
compare_tasks thresholds baseline later tables (k ∷ ks) p =
    then_do (compare_task thresholds baseline later (find_task tables k) p.excluded_tasks k)
      (λ o. compare_tasks thresholds baseline later tables ks (add_outcome k o p))

pub record ComparisonReport : Type 0 where
  pub run_ids : List String
  pub snapshots : Dict RunSnapshot
  pub task_comparisons : List TaskComparison
  pub regressions : List String
  pub improvements : List String
  pub metric_regressions : List String
  pub comparability_issues : List ComparabilityIssue
  pub excluded_tasks : Dict (List String)

-- `{r: [] for r in run_ids}`
unfoldable pub no_exclusions : List String → Dict (List String) → Dict (List String)
no_exclusions [] d = d
no_exclusions (r ∷ rs) d = no_exclusions rs (insert r [] d)

-- Before the loop over the task keys.
unfoldable pub start : (baseline : String) (later : List String) → Progress
unfolding no_exclusions
start baseline later = record {
  task_comparisons = [];
  regressions = [];
  improvements = [];
  metric_regressions = [];
  excluded_tasks = no_exclusions (baseline ∷ later) [];
}

-- `{k: v for k, v in excluded_tasks.items() if v}`
unfoldable pub drop_empty : Dict (List String) → Dict (List String)
drop_empty [] = []
drop_empty ((r, []) ∷ d) = drop_empty d
drop_empty ((r, k ∷ ks) ∷ d) = (r, k ∷ ks) ∷ drop_empty d

abbrev pub comparability_error : Exception
comparability_error = raised "ComparabilityError" "Runs are not comparable"

-- Once the runs are known to be comparable.
unfoldable pub report_on :
    (wall_total : List Float → Float)
    → Store
    → MetricThresholds
    → Dict RunRecord
    → List ComparabilityIssue
    → (baseline : String) (later : List String) → Result ComparisonReport
unfolding then_do load_tasks all_keys start compare_tasks drop_empty
report_on wall_total store thresholds runs issues baseline later =
    then_do
      (load_tasks wall_total store runs (baseline ∷ later)
        (record { tasks_by_run = []; snapshots = [] }))
      (λ tables.
        then_do
          (compare_tasks thresholds baseline later tables.tasks_by_run
            (all_keys tables.tasks_by_run []) (start baseline later))
          (λ p. return (record {
            run_ids = baseline ∷ later;
            snapshots = tables.snapshots;
            task_comparisons = p.task_comparisons;
            regressions = p.regressions;
            improvements = p.improvements;
            metric_regressions = p.metric_regressions;
            comparability_issues = issues;
            excluded_tasks = drop_empty p.excluded_tasks;
          })))

unfoldable pub or_default : Option MetricThresholds → MetricThresholds
or_default none = default_thresholds
or_default (some thresholds) = thresholds

unfoldable pub compare_runs :
    (wall_total : List Float → Float)
    → List String
    → Store
    → (thresholds : Option MetricThresholds) → (strict : Bool) → Result ComparisonReport
unfolding then_do load_runs loaded check_all any_error or_default report_on
compare_runs wall_total [] store thresholds strict = raise value_error
compare_runs wall_total (baseline ∷ []) store thresholds strict = raise value_error
compare_runs wall_total (baseline ∷ second ∷ rest) store thresholds strict =
    then_do (load_runs store (baseline ∷ second ∷ rest) []) (λ runs.
      then_do (loaded (lookup baseline runs)) (λ baseline_run.
        then_do (check_all runs baseline_run (second ∷ rest)) (λ issues.
          if strict && any_error issues
          then raise comparability_error
          else report_on wall_total store (or_default thresholds) runs issues baseline
              (second ∷ rest))))
