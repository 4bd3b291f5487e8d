-- ===== src/Tests.antt =====
-- Concrete runs, tasks and worlds at which the theorems are applied.
pub mod Stores
pub mod Runs
pub mod Work
pub mod Inputs
pub mod Databases
pub mod Drains
pub mod Comparisons
use fine_tune_harness.Base.{ℕ, String, Option, none, some, [], ◌∷◌, Dict}
use fine_tune_harness.Base.Int.{pos}
use fine_tune_harness.Effects.{Result, return}
use fine_tune_harness.World.{Env, World}
use fine_tune_harness.State.Value.{Value, int, Fields, end}
use fine_tune_harness.State.Models.{RunStatus, TaskStatus, RunRecord, TaskRecord}
use fine_tune_harness.State.Memory.{Store, Stamp}
use fine_tune_harness.Executor.Session.{Worker, no_sandbox}

-- A task of the run "r".
abbrev pub task_as : String → TaskStatus → (attempt_count : ℕ) → TaskRecord
task_as id status attempt_count = record {
  task_id = id;
  run_id = "r";
  task_key = id;
  status = status;
  payload = end;
  result = none;
  error = none;
  lease_owner = none;
  leased_until = none;
  attempt_count = attempt_count;
}

-- The same with a lease.
abbrev pub held_by : String → ℕ → TaskRecord → TaskRecord
held_by worker_id until t = record t { lease_owner = some worker_id; leased_until = some until }

abbrev pub run_as : RunStatus → RunRecord
run_as status = record {
  run_id = "r";
  name = "grid";
  status = status;
  config = end;
  created_at = 0;
  env_snapshot = end;
  finished_at = none;
  seed = some (int (pos 42));
  dataset_hashes = end;
  config_hash = some "c";
}

abbrev pub store_of : RunStatus → Dict TaskRecord → Store
store_of status tasks = record {
  runs = ("r", run_as status) ∷ [];
  tasks = tasks;
  events = [];
  artifacts = [];
}

abbrev pub world_of : RunStatus → Dict TaskRecord → World (Unit {0})
world_of status tasks = record {
  store = store_of status tasks;
  reads = 0;
  run_seeds = [];
  outside = tt;
}

abbrev pub stamp : Stamp
stamp = record { event_id = "e"; created_at = 5 }

abbrev pub env : Env
env = record {
  now = λ n. n;
  uuid = λ _. "id";
  canonical_json_hash = λ _. "hash";
  env_snapshot = end;
  decimal = λ _. "0";
}

-- A worker without hooks or artifacts that tries each task three times.
abbrev pub worker : Worker (Unit {0})
worker = record {
  worker_id = "w";
  artifact_store = none;
  max_attempts = pos 3;
  timeout_seconds = none;
  hooks = [];
  sandbox = no_sandbox;
  max_oom_retries = 0;
  seed_rngs = λ _ x. (return tt, x);
  parse_int = λ _. none;
}
