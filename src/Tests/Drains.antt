-- ===== src/Tests/Drains.antt =====
-- The theorems on drains (executor/worker.py) at a run of two tasks whose handler always raises, and at
-- a concurrent one with two devices.
use fine_tune_harness.Base.{
  ℕ, String, ◌+◌, none, some, [], ◌∷◌, ◌≡◌, refl, inl, inr, arith, lookup, values,
}
use fine_tune_harness.Base.Int.{pos}
use fine_tune_harness.Effects.{raised, Result, raise, return-injective}
use fine_tune_harness.World.{World}
use fine_tune_harness.State.Value.{finite, get_or, get}
use fine_tune_harness.State.Models.{RunStatus, TaskStatus, TaskRecord}
use fine_tune_harness.State.Memory.{list_tasks, sort_by_key, tasks_of_run}
use fine_tune_harness.State.Memory.Keys.{IsKeyed}
use fine_tune_harness.Orchestrator.Hooks.{fire, fire_all, hooks_at}
use fine_tune_harness.Executor.Conversion.{to_int, at_least_one}
use fine_tune_harness.Executor.Session.{Handler, about_task, no_sandbox, resolve_max_attempts}
use fine_tune_harness.State.Sqlite.{Database}
use fine_tune_harness.Executor.Concurrent.{
  ConcurrencyConfig, Parent, start, admit, Steps, done, next, admits, reports, on_report, oom,
}
use fine_tune_harness.Executor.Concurrent.Bounds.{IsBounded, drain_concurrent-IsBounded}
use fine_tune_harness.Base.{false, ◌↔◌}
use fine_tune_harness.Effects.{return}
use fine_tune_harness.Orchestrator.Runner.{any_in, unsuccessful}
use fine_tune_harness.Executor.Worker.{drain, drain_started}
use fine_tune_harness.Executor.Worker.Draining.{Rounds, drain_returns}
use fine_tune_harness.Executor.Worker.Weights.{total}
use fine_tune_harness.Executor.Worker.Attempts.{IsCapped, AllCapped}
use fine_tune_harness.Executor.Worker.Termination.{drain_terminates}
use fine_tune_harness.Tests.{task_as, world_of, env, worker}

abbrev failing : Handler (Unit {0})
failing t x = record {
  outcome = raise (raised "RuntimeError" "failed");
  payload = t.payload;
  seconds = 0;
  wall_seconds = finite (pos 0) 0;
  outside = x;
}

abbrev two_tasks : World (Unit {0})
two_tasks =
    world_of RunStatus.validated
      (("a", task_as "a" TaskStatus.pending 0) ∷ ("b", task_as "b" TaskStatus.pending 1) ∷ [])

two_tasks-IsKeyed : IsKeyed two_tasks.store.tasks
unfolding lookup
two_tasks-IsKeyed = (refl, refl, (refl, refl, tt))

two_tasks-AllCapped : AllCapped env worker 3 two_tasks.store.tasks
unfolding AllCapped IsCapped values resolve_max_attempts get_or get to_int at_least_one
two_tasks-AllCapped t (inl e) n h =
    let three : 3 ≡ n = return-injective (rw e at h) in omega (arith, three)
two_tasks-AllCapped t (inr (inl e)) n h =
    let three : 3 ≡ n = return-injective (rw e at h) in omega (arith, three)
two_tasks-AllCapped t (inr (inr none_left)) n h = elim none_left [ ]

hooks_keep :
    (task working : TaskRecord) (x : Unit {0})
    → IsCapped env worker 3 task
    → (fire worker.hooks "before_task" (about_task task) x).0.task ≡ some working
    → IsCapped env worker 3 working
unfolding fire fire_all hooks_at lookup
hooks_keep task working x capped left = let e : task ≡ working = cc in rw (← e) capped

handler_keeps :
    (task : TaskRecord) (x : Unit {0})
    → IsCapped env worker 3 task
    → IsCapped env worker 3 (record task { payload = (worker.sandbox failing task x).payload })
unfolding no_sandbox
handler_keeps task x capped = capped

drain_terminates_example :
    (out : Result ℕ × World (Unit {0})) × (drain env worker "r"
        (total 3 two_tasks.store.tasks + 1)
        failing
        none
        two_tasks
      ≡ some out)
drain_terminates_example =
    drain_terminates env worker "r" 3 failing refl hooks_keep handler_keeps none two_tasks
      two_tasks-IsKeyed two_tasks-AllCapped

-- What the drain comes to.
ended :
    (out : Result ℕ × World (Unit {0})) × (drain env worker "r"
        (total 3 two_tasks.store.tasks + 1)
        failing
        none
        two_tasks
      ≡ some out)
ended =
    drain_terminates env worker "r" 3 failing refl hooks_keep handler_keeps none two_tasks
      two_tasks-IsKeyed two_tasks-AllCapped

drain_returns_example :
    (k : ℕ) × Rounds env worker "r" failing none
      (drain_started env worker "r" "sequential" 8 (finite (pos 2000) 0) two_tasks).1
      k
      ended.0.1
    × ((n : ℕ)
        → (ended.0.0 ≡ return n)
          ↔ ((n ≡ k) × (any_in unsuccessful (list_tasks "r" ended.0.1.store) ≡ false)))
drain_returns_example =
    drain_returns env worker "r" failing none (total 3 two_tasks.store.tasks + 1) two_tasks
      ended.0.0 ended.0.1 ended.1

abbrev two_at_a_time : ConcurrencyConfig
two_at_a_time = record {
  min_free_mb = finite (pos 2000) 0;
  max_concurrent = pos 2;
  max_oom_retries = 5;
}

abbrev shared : Database
shared = record {
  runs = [];
  tasks = task_as "a" TaskStatus.pending 0 ∷ task_as "b" TaskStatus.pending 0 ∷ [];
  events = [];
  artifacts = [];
}

abbrev child_id : ℕ → String
child_id n = "w-c"

abbrev begun : Parent
begun = start two_at_a_time "r" 2 child_id shared

-- The first child goes to the device with the most memory.
abbrev admitted : Parent
admitted = record begun {
  in_flight = record { pid = 11; worker_id = "w-c"; device = 1 } ∷ [];
  child_seq = 1;
}

one_admission :
    admit two_at_a_time "r" 2 child_id 6 (finite (pos 4000) 0 ∷ finite (pos 8000) 0 ∷ []) 11 begun
    ≡ some admitted
unfolding admit start at_least_one sort_by_key tasks_of_run
one_admission = refl

one_admitted : Steps two_at_a_time "r" 2 child_id begun admitted
one_admitted =
    next done (admits 6 (finite (pos 4000) 0 ∷ finite (pos 8000) 0 ∷ []) 11 one_admission)

drain_concurrent-IsBounded_example : IsBounded 2 (on_report 11 oom admitted)
unfolding at_least_one
drain_concurrent-IsBounded_example =
    drain_concurrent-IsBounded two_at_a_time "r" 2 child_id shared (on_report 11 oom admitted)
      (next one_admitted (reports 11 oom))
