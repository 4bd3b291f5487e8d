-- ===== src/Tests/Runs.antt =====
-- The theorems on the status of a run (orchestrator/runner.py) at runs of one or two tasks.
use fine_tune_harness.Base.{
  ℕ, String, Option, some, List, [], ◌∷◌, ◌≡◌, ◌≢◌, ◌↔◌, inl, inr, refl, lookup, values,
}
use fine_tune_harness.Effects.{return, raise, value_error}
use fine_tune_harness.World.{World}
use fine_tune_harness.State.Models.{RunStatus, completed, TaskStatus, TaskRecord}
use fine_tune_harness.State.Memory.{list_tasks, tasks_of_run, sort_by_key, insert_sorted, key_le}
use fine_tune_harness.Orchestrator.Lifecycle.{
  task_in, task_is, run_in, run_is, allowed_run_transitions,
}
use fine_tune_harness.Orchestrator.Runner.{
  target_status, refresh_run_status, any_in, all_in, any_attempted,
}
use fine_tune_harness.Orchestrator.Runner.Refresh.{
  Stores, refresh_run_status_settles, refresh_run_status_refuses,
}
use fine_tune_harness.Orchestrator.Runner.Targets.{
  All, Succeeded, Lost, target_status_completed, target_status_failed,
  target_status_cancelled_tasks, refresh_run_status_stuck,
}
use fine_tune_harness.Orchestrator.Creation.{interactive_check}
use fine_tune_harness.Orchestrator.Creation.Approval.Lines.{Agrees}
use fine_tune_harness.Orchestrator.Creation.Approval.{Permitted, interactive_check_approves}
use fine_tune_harness.Base.{◌↔◌, ◌⊎◌}
use fine_tune_harness.Effects.{approval_error}
use fine_tune_harness.Tests.{task_as, run_as, world_of, env}

abbrev half_done : List TaskRecord
half_done = task_as "a" TaskStatus.succeeded 1 ∷ task_as "b" TaskStatus.failed 1 ∷ []

target_status_completed_example :
    (target_status half_done ≡ completed) ↔ ((half_done ≢ []) × All Succeeded half_done)
target_status_completed_example = target_status_completed half_done

target_status_failed_example :
    (target_status half_done ≡ RunStatus.failed) ↔ ((half_done ≢ []) × All Lost half_done)
target_status_failed_example = target_status_failed half_done

target_status_cancelled_tasks_example :
    target_status (task_as "a" TaskStatus.succeeded 1 ∷ task_as "b" TaskStatus.cancelled 0 ∷ [])
    ≡ RunStatus.running
unfolding any_in all_in task_in task_is
target_status_cancelled_tasks_example =
    target_status_cancelled_tasks
      (task_as "a" TaskStatus.succeeded 1 ∷ task_as "b" TaskStatus.cancelled 0 ∷ [])
      (inl refl, (inr refl, tt)) refl refl

-- A validated run whose only task has succeeded: it is COMPLETED through RUNNING.
abbrev finished_world : World (Unit {0})
finished_world = world_of RunStatus.validated (("a", task_as "a" TaskStatus.succeeded 1) ∷ [])

refresh_run_status_settles_example :
    (w' : World (Unit {0})) × (refresh_run_status env "r" finished_world
      ≡ (return (target_status (list_tasks "r" finished_world.store)), w'))
    × ((finished : Option ℕ) × Stores env "r" finished_world w'
          (record (run_as RunStatus.validated) {
            status = target_status (list_tasks "r" finished_world.store);
            finished_at = finished;
          }))
unfolding lookup list_tasks tasks_of_run sort_by_key insert_sorted key_le values target_status
    any_in all_in any_attempted run_is run_in task_in task_is allowed_run_transitions
refresh_run_status_settles_example =
    refresh_run_status_settles env "r" finished_world (run_as RunStatus.validated) refl refl

-- A completed run with a task that is PENDING again.
abbrev reopened_world : World (Unit {0})
reopened_world = world_of RunStatus.completed (("a", task_as "a" TaskStatus.pending 0) ∷ [])

refresh_run_status_refuses_example :
    refresh_run_status env "r" reopened_world ≡ (raise value_error, reopened_world)
unfolding lookup list_tasks tasks_of_run sort_by_key insert_sorted key_le values target_status
    any_in all_in any_attempted run_is run_in task_in task_is allowed_run_transitions
refresh_run_status_refuses_example =
    refresh_run_status_refuses env "r" reopened_world (run_as RunStatus.completed) refl refl

abbrev unstarted_world : World (Unit {0})
unstarted_world = world_of RunStatus.running (("a", task_as "a" TaskStatus.pending 0) ∷ [])

refresh_run_status_stuck_example :
    refresh_run_status env "r" unstarted_world ≡ (raise value_error, unstarted_world)
unfolding lookup list_tasks tasks_of_run sort_by_key insert_sorted key_le values
refresh_run_status_stuck_example =
    refresh_run_status_stuck env "r" unstarted_world (run_as RunStatus.running)
      (task_as "a" TaskStatus.pending 0) [] refl refl refl ((refl, refl), tt)

abbrev answer : Unit {0} → String × Unit {0}
answer x = (" Yes\n", x)

interactive_check_approves_example :
    (((interactive_check "ann" (some ("ann" ∷ [])) answer tt).0 ≡ return (some "ann"))
      ↔ (Permitted "ann" (some ("ann" ∷ [])) × Agrees " Yes\n"))
    × (((interactive_check "ann" (some ("ann" ∷ [])) answer tt).0 ≡ return (some "ann"))
        ⊎ ((interactive_check "ann" (some ("ann" ∷ [])) answer tt).0 ≡ raise approval_error))
    × ((Permitted "ann" (some ("ann" ∷ [])) → ⊥)
        → (interactive_check "ann" (some ("ann" ∷ [])) answer tt).1 ≡ tt)
interactive_check_approves_example = interactive_check_approves "ann" (some ("ann" ∷ [])) answer tt
