-- ===== src/Executor/Concurrent/Children.antt =====
-- executor/worker.py: a child of a concurrent drain, and what the drain ends with.
use fine_tune_harness.Base.{ℕ, String, Option, none, some, [], ◌∷◌, map, if◌then◌else◌, insert}
use fine_tune_harness.Effects.{degraded_run, Result, return, raise}
use fine_tune_harness.World.{Env, World}
use fine_tune_harness.State.Value.{Value}
use fine_tune_harness.State.Models.{TaskRecord}
use fine_tune_harness.State.Sqlite.Tasks.{list_tasks}
use fine_tune_harness.Executor.Oom.{is_oom_error}
use fine_tune_harness.Executor.Session.{Worker, Handler}
use fine_tune_harness.Executor.Worker.{run_once, failed_tasks}
use fine_tune_harness.Executor.Concurrent.{Parent, ChildOutcome, succeeded, oom, empty, error}

-- What a child reports of its run_once.
unfoldable pub child_outcome : Result (Option TaskRecord) → ChildOutcome
unfolding is_oom_error
child_outcome (return (some _)) = succeeded
child_outcome (return none) = empty
child_outcome (raise e) = if is_oom_error e then oom else error

module _ {E : Type 0} (env : Env) (wk : Worker E) (run_id : String) where
  -- The worker of a child, with the budget for memory errors.
  unfoldable pub primed : (max_oom_retries : ℕ) → Worker E
  primed max_oom_retries = record wk { max_oom_retries = max_oom_retries }

  -- The run counts as started, with its seed at hand.
  unfoldable pub prime_for_child : (seed : Option Value) → World E → World E
  prime_for_child seed w = record w { run_seeds = insert run_id seed w.run_seeds }

  unfoldable pub run_once_subprocess :
      (seed : Option Value) (max_oom_retries : ℕ) → Handler E → World E → ChildOutcome × World E
  unfolding child_outcome primed prime_for_child run_once
  run_once_subprocess seed max_oom_retries handler w =
      let (r, w') = run_once env (primed max_oom_retries) run_id handler (prime_for_child seed w) in
      (child_outcome r, w')

  unfoldable pub conclude_concurrent : Parent → Result ℕ
  unfolding failed_tasks list_tasks
  conclude_concurrent p = elim (failed_tasks env wk run_id (list_tasks run_id p.db)) [
    | [] ↦ return p.succeeded
    | t ∷ ts ↦ raise (degraded_run (map (λ f. f.task_key) (t ∷ ts)) p.succeeded)
  ]
