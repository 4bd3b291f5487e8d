-- ===== src/Evaluation/Comparator/Snapshots.antt =====
-- evaluation/comparator.py: the choice of the runs to compare, and the summary of one run. `wall_total`
-- is what `round(sum(timed), 3)` gives.
use fine_tune_harness.Base.{
  ℕ, ◌+◌, String, Bool, true, false, Option, none, some, List, [], ◌∷◌, leb, nat_eq, if◌then◌else◌,
}
use fine_tune_harness.Effects.{value_error, Result, return, raise}
use fine_tune_harness.State.Value.{Fields, Float, nan, get}
use fine_tune_harness.State.Models.{run_status_value, TaskStatus, timed_out, RunRecord, TaskRecord}
use fine_tune_harness.State.Memory.{Store, list_runs}
use fine_tune_harness.Orchestrator.Lifecycle.{task_is, task_in}
use fine_tune_harness.Evaluation.Floats.{ratio, float_of}
use fine_tune_harness.Evaluation.Comparator.Tasks.{then_do}

-- The times are all in UTC.
unfoldable pub filter_runs_since : List RunRecord → (cutoff : ℕ) → List RunRecord
filter_runs_since [] cutoff = []
filter_runs_since (r ∷ rs) cutoff =
    let rest = filter_runs_since rs cutoff in if leb cutoff r.created_at then r ∷ rest else rest

-- `sorted(runs, key=created_at)`, a stable sort.
unfoldable insert_by_time : RunRecord → List RunRecord → List RunRecord
insert_by_time r [] = r ∷ []
insert_by_time r (u ∷ us) =
    if leb r.created_at u.created_at then r ∷ u ∷ us else u ∷ insert_by_time r us

unfoldable pub sort_by_time : List RunRecord → List RunRecord
unfolding insert_by_time
sort_by_time [] = []
sort_by_time (r ∷ rs) = insert_by_time r (sort_by_time rs)

unfoldable last_two : List RunRecord → Result (String × String)
last_two [] = raise value_error
last_two (a ∷ []) = raise value_error
last_two (a ∷ b ∷ []) = return (a.run_id, b.run_id)
last_two (a ∷ b ∷ c ∷ rs) = last_two (b ∷ c ∷ rs)

unfoldable pub find_latest_run_pair : Store → Result (String × String)
unfolding last_two sort_by_time list_runs
find_latest_run_pair store = last_two (sort_by_time (list_runs store))

pub record RunSnapshot : Type 0 where
  pub run_id : String
  pub name : String
  pub status : String
  pub total_tasks : ℕ
  pub succeeded : ℕ
  pub failed : ℕ
  pub degenerate : ℕ
  pub success_rate : Float
  pub total_wall_seconds : Option Float
  pub created_at : ℕ
  pub finished_at : Option ℕ

unfoldable pub count : (TaskRecord → Bool) → List TaskRecord → ℕ
count p [] = 0
count p (t ∷ ts) = (if p t then 1 else 0) + count p ts

abbrev pub failures : List TaskStatus
failures = TaskStatus.failed ∷ timed_out ∷ TaskStatus.cancelled ∷ TaskStatus.degenerate ∷ []

unfoldable pub wall_of : Option Fields → Option (Result Float)
unfolding get float_of
wall_of none = none
wall_of (some result) = elim (get "wall_seconds" result) [ none ↦ none | some raw ↦ float_of raw ]

-- `timed`
unfoldable pub timed : List TaskRecord → Result (List Float)
unfolding then_do wall_of
timed [] = return []
timed (t ∷ ts) =
    let rest = timed ts in
    elim (wall_of t.result) [
      | none ↦ rest
      | some number ↦ then_do number (λ v. then_do rest (λ vs. return (v ∷ vs)))
    ]

unfoldable pub total_of : (List Float → Float) → List Float → Option Float
total_of wall_total [] = none
total_of wall_total (v ∷ vs) = some (wall_total (v ∷ vs))

unfoldable pub snapshot :
    (wall_total : List Float → Float)
    → RunRecord
    → List TaskRecord
    → (walls : List Float) → RunSnapshot
unfolding run_status_value count task_is task_in ratio total_of
snapshot wall_total run tasks walls =
    let total = count (λ t. true) tasks in
    let ended_well = count (λ t. task_is t.status TaskStatus.succeeded) tasks in
    record {
      run_id = run.run_id;
      name = run.name;
      status = run_status_value run.status;
      total_tasks = total;
      succeeded = ended_well;
      failed = count (λ t. task_in t.status failures) tasks;
      degenerate = count (λ t. task_is t.status TaskStatus.degenerate) tasks;
      success_rate = elim (nat_eq total 0) [ true ↦ nan | false ↦ ratio ended_well total ];
      total_wall_seconds = total_of wall_total walls;
      created_at = run.created_at;
      finished_at = run.finished_at;
    }
