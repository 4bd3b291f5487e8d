-- ===== src/Tests/Comparisons.antt =====
-- The theorems on the comparison of runs (evaluation/comparator.py) at two runs.
use fine_tune_harness.Base.{
  String, false, Option, none, some, List, lookup, insert, values, has_key, ◌==◌, if◌then◌else◌, [],
  ◌∷◌, ◌&&◌, ◌≡◌, refl, inl,
}
use fine_tune_harness.Base.Int.{pos}
use fine_tune_harness.Effects.{Result, return, raise}
use fine_tune_harness.State.Value.{float, end, field, Float, finite, nan}
use fine_tune_harness.State.Models.{RunStatus, TaskStatus, TaskRecord}
use fine_tune_harness.State.Memory.{Store, sort_by_key, tasks_of_run}
use fine_tune_harness.Evaluation.Validator.{text_in}
use fine_tune_harness.Evaluation.Comparator.{default_thresholds, result_is_valid_for_comparison}
use fine_tune_harness.Evaluation.Comparator.Tasks.{Outcome, compare_task, outcome_of, result_of}
use fine_tune_harness.Evaluation.Comparator.Reports.{ComparisonReport, compare_runs}
use fine_tune_harness.Evaluation.Comparator.Verdicts.{regressed, improved}
use fine_tune_harness.Evaluation.Comparator.Verdicts.Tables.{task_under, compare_runs_verdicts}
use fine_tune_harness.Evaluation.Comparator.Exclusions.{IsRejected, delta_at, compare_task_rejected}
use fine_tune_harness.Tests.{task_as, run_as}

abbrev in_run : String → TaskRecord → TaskRecord
in_run run_id t = record t { run_id = run_id }

-- "a" succeeded in the first run and failed in the second, "b" the other way round.
abbrev two_runs : Store
two_runs = record {
  runs =
      ("r", run_as RunStatus.completed)
      ∷ ("s", record (run_as RunStatus.completed) { run_id = "s" })
      ∷ [];
  tasks =
      ("1", record (in_run "r" (task_as "a" TaskStatus.succeeded 1)) { task_id = "1" })
      ∷ ("2", record (in_run "r" (task_as "b" TaskStatus.failed 1)) { task_id = "2" })
      ∷ ("3", record (in_run "s" (task_as "a" TaskStatus.failed 1)) { task_id = "3" })
      ∷ ("4", record (in_run "s" (task_as "b" TaskStatus.succeeded 1)) { task_id = "4" })
      ∷ [];
  events = [];
  artifacts = [];
}

abbrev no_total : List Float → Float
no_total walls = nan

unfoldable or_else_report : Result ComparisonReport → ComparisonReport
or_else_report (return report) = report
or_else_report (raise e) = record {
  run_ids = [];
  snapshots = [];
  task_comparisons = [];
  regressions = [];
  improvements = [];
  metric_regressions = [];
  comparability_issues = [];
  excluded_tasks = [];
}

abbrev report : ComparisonReport
report = or_else_report (compare_runs no_total ("r" ∷ "s" ∷ []) two_runs none false)

compare_runs_verdicts_example :
    (text_in "a" report.regressions ≡ regressed (task_under two_runs "a") "r" ("s" ∷ []))
    × (text_in "a" report.improvements ≡ improved (task_under two_runs "a") "r" ("s" ∷ []))
    × ((text_in "a" report.regressions && text_in "a" report.improvements) ≡ false)
unfolding or_else_report compare_runs lookup insert sort_by_key tasks_of_run values has_key
compare_runs_verdicts_example =
    compare_runs_verdicts no_total "r" "s" [] two_runs none false report refl "a"

-- The task "a" with an accuracy that is no number in the second run.
abbrev table : String → Option TaskRecord
table = λ r. some (
    if r == "s"
    then record (task_as "a" TaskStatus.succeeded 1) {
      result = some (field "accuracy" (float nan) end);
    }
    else record (task_as "a" TaskStatus.succeeded 1) {
      result = some (field "accuracy" (float (finite (pos 1) 1)) end);
    })

unfoldable or_else_outcome : Result Outcome → Outcome
unfolding outcome_of
or_else_outcome (return o) = o
or_else_outcome (raise e) =
    outcome_of "r" [] table "a" (record { reasons = []; tasks = [] })
      (record { deltas = []; regressions = [] }) []

abbrev outcome : Outcome
outcome = or_else_outcome (compare_task default_thresholds "r" ("s" ∷ []) table [] "a")

second-IsRejected : IsRejected (result_of (table "s"))
unfolding result_of result_is_valid_for_comparison
second-IsRejected = record { fields = _; reason = _; has_result = refl; has_reason = refl }

compare_task_rejected_example :
    (delta_at "accuracy" "s" outcome.comparison.metric_deltas ≡ none)
    × (delta_at "accuracy" "s" outcome.comparison.metric_regressions ≡ none)
unfolding or_else_outcome compare_task has_key insert
compare_task_rejected_example =
    compare_task_rejected default_thresholds "r" ("s" ∷ []) table [] "a" outcome refl "s" refl
      (inl second-IsRejected) "accuracy"
