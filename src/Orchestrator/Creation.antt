-- ===== src/Orchestrator/Creation.antt =====
-- orchestrator/runner.py and orchestrator/approval.py: the creation of a run with its tasks, its
-- approval and its summary. Logging and the prompt's texts are not modelled.
pub mod Promises
pub mod Approval
pub mod Seeds
use fine_tune_harness.Base.{
  ℕ, zero, suc, ◌+◌, String, Bool, true, false, not, ◌&&◌, ◌||◌, Option, none, some, List, [], ◌∷◌,
  map, Dict, lookup, insert, if◌then◌else◌, ◌==◌, nat_eq,
}
use fine_tune_harness.Base.Text.{codes, to_lower, strip, codes_eq}
use fine_tune_harness.Effects.{
  Result, return, raise, key_error, type_error, attribute_error, approval_error, pure, throw, lift,
  ◌>>=◌, ◌>>◌,
}
use fine_tune_harness.World.{Env, World, Act, on_store, ask, utc_now, fresh_id, record_event}
use fine_tune_harness.State.Value.{Value, null, str, dict, Fields, end, field, get, get_or, has}
use fine_tune_harness.State.Models.{
  RunStatus, created, validated, TaskStatus, pending, RunRecord, TaskRecord, run_status_value,
}
use fine_tune_harness.State.Memory.{
  create_task, get_run, list_tasks, update_run_status, optional_str,
}
use fine_tune_harness.State.Memory
use Prim.Native.String.{◌++◌}
use fine_tune_harness.Orchestrator.Lifecycle.{ensure_run_transition, task_is}
use fine_tune_harness.Orchestrator.Runner.{refresh_run_status}
use fine_tune_harness.Validation.Configs.{validate_run_config}

-- `{"default": config["dataset_hash"]}`, whatever that value is, or a copy of `config["datasets"]`.
unfoldable pub dataset_hashes : Fields → Result Fields
dataset_hashes config = elim (get "dataset_hash" config) [
  | some hash ↦ return (field "default" hash end)
  | none ↦ elim (get "datasets" config) [
    | none ↦ raise key_error
    | some datasets ↦ elim datasets [ dict hashes ↦ return hashes | _ ↦ raise type_error ]
  ]
]

-- `config["seed"]`
unfoldable pub seed_of : Fields → Result Value
seed_of config = elim (get "seed" config) [ none ↦ raise key_error | some seed ↦ return seed ]

-- The fields of a dictionary; the validation has refused any other value.
unfoldable pub fields_of : Value → Result Fields
fields_of (dict config) = return config
fields_of _ = raise type_error

-- The key of a task, `task-<index>` unless its payload gives a text. A key that is no text would be
-- kept as it is; here it raises.
unfoldable pub task_key : Env → Fields → ℕ → Result String
task_key env payload index = elim (get "task_key" payload) [
  | none ↦ return ("task-" ++ env.decimal index)
  | some key ↦ elim key [ str k ↦ return k | _ ↦ raise type_error ]
]

unfoldable pub new_task : (task_id run_id key : String) → Fields → TaskRecord
new_task task_id run_id key payload = record {
  task_id = task_id;
  run_id = run_id;
  task_key = key;
  status = pending;
  payload = payload;
  result = none;
  error = none;
  lease_owner = none;
  leased_until = none;
  attempt_count = 0;
}

unfoldable pub new_run :
    Env
    → (run_id name : String) → Fields
    → (created_at : ℕ) → (seed : Value) → (hashes : Fields) → RunRecord
new_run env run_id name config created_at seed hashes = record {
  run_id = run_id;
  name = name;
  status = created;
  config = config;
  created_at = created_at;
  env_snapshot = env.env_snapshot;
  finished_at = none;
  seed = some seed;
  dataset_hashes = hashes;
  config_hash = some (env.canonical_json_hash config);
}

module _ {E : Type 0} (env : Env) where
  unfoldable pub add_task : String → ℕ → Fields → Act E (Unit {0})
  unfolding task_key new_task
  add_task run_id index payload = do
    task_id ← fresh_id env
    key ← lift (task_key env payload index)
    on_store (create_task (new_task task_id run_id key payload))
    record_event env run_id (some task_id) "task_created" payload

  unfoldable pub add_tasks : String → ℕ → List Fields → Act E (Unit {0})
  unfolding add_task
  add_tasks run_id index [] = pure tt
  add_tasks run_id index (payload ∷ rest) = do
    add_task run_id index payload
    add_tasks run_id (index + 1) rest

  -- A run in the store, created and then validated.
  unfoldable pub open_run : RunRecord → Act E (Unit {0})
  open_run run = do
    on_store (Memory.create_run run)
    record_event env run.run_id none "run_created" (field "name" (str run.name) end)
    lift (ensure_run_transition created validated)
    on_store (update_run_status run.run_id validated)
    record_event env run.run_id none "run_validated" end

  unfoldable pub create_run : String → Value → List Fields → Act E String
  unfolding fields_of seed_of dataset_hashes new_run open_run add_tasks
  create_run name config tasks = do
    lift (validate_run_config config)
    run_id ← fresh_id env
    fields ← lift (fields_of config)
    seed ← lift (seed_of fields)
    hashes ← lift (dataset_hashes fields)
    created_at ← utc_now env
    open_run (new_run env run_id name fields created_at seed hashes)
    add_tasks run_id 0 tasks
    pure run_id

  -- An approval gate is the user's: it reads the run and its tasks and names the actor, or raises.
  unfoldable pub await_approval :
      String
      → (gate_name : String) → (RunRecord → List TaskRecord → E → Result (Option String) × E)
      → Act E (Unit {0})
  await_approval run_id gate_name check w = elim (get_run run_id w.store) [
    | none ↦ (raise key_error, w)
    | some run ↦
        let (verdict, outside) = check run (list_tasks run_id w.store) w.outside in
        let approve : Act E (Unit {0}) = lift verdict >>= λ actor.
        record_event env run_id none "run_approved"
          (field "gate" (str gate_name) (field "actor" (optional_str actor) end)) in
        approve (record w { outside = outside })
  ]

-- `resolve_actor`: a name that is given and not empty, else the user of the system, if it is known.
unfoldable pub resolve_actor : (actor os_user : Option String) → String
resolve_actor none none = "unknown"
resolve_actor none (some user) = user
resolve_actor (some name) os_user =
    if name == "" then elim os_user [ none ↦ "unknown" | some user ↦ user ] else name

unfoldable pub is_member : String → List String → Bool
is_member x [] = false
is_member x (y ∷ ys) = x == y || is_member x ys

unfoldable pub is_allowed : String → Option (List String) → Bool
unfolding is_member
is_allowed actor none = true
is_allowed actor (some allowed) = is_member actor allowed

-- `readline().strip().lower()` is "y" or "yes".
unfoldable pub is_yes : String → Bool
unfolding strip
is_yes line =
    let answer = map to_lower (strip (codes line)) in
    codes_eq answer (codes "y") || codes_eq answer (codes "yes")

-- `InteractiveApprovalGate.check`: `read_answer` reads a line from the stream, with its end, or no text
-- at its end.
unfoldable pub interactive_check :
    {E : Type 0}
    → (actor : String) → (allowed_actors : Option (List String)) → (read_answer : E → String × E)
    → E
    → Result (Option String) × E
unfolding is_allowed is_yes
interactive_check actor allowed_actors read_answer x =
    let (line, x') = read_answer x in
    if is_allowed actor allowed_actors
    then (if is_yes line then return (some actor) else raise approval_error, x')
    else (raise approval_error, x)

abbrev pub all_statuses : List (TaskStatus × String)
all_statuses =
    (TaskStatus.cancelled, "cancelled")
    ∷ (TaskStatus.degenerate, "degenerate")
    ∷ (TaskStatus.failed, "failed")
    ∷ (TaskStatus.leased, "leased")
    ∷ (pending, "pending")
    ∷ (TaskStatus.running, "running")
    ∷ (TaskStatus.succeeded, "succeeded")
    ∷ (TaskStatus.timed_out, "timed_out")
    ∷ []

unfoldable pub count_status : TaskStatus → List TaskRecord → ℕ
count_status status [] = 0
count_status status (t ∷ ts) = (if task_is status t.status then 1 else 0) + count_status status ts

-- `dict(sorted(Counter(…).items()))`: the statuses that occur, by the order of their names.
unfoldable pub counts_of : List (TaskStatus × String) → List TaskRecord → Dict ℕ
unfolding count_status
counts_of [] tasks = []
counts_of ((status, name) ∷ rest) tasks =
    let others = counts_of rest tasks in
    if nat_eq (count_status status tasks) 0
    then others
    else (name, count_status status tasks) ∷ others

pub record RunSummary : Type 0 where
  pub run_id : String
  pub name : String
  pub status : String
  pub task_counts : Dict ℕ
  pub task_total : ℕ

unfoldable pub count_tasks : List TaskRecord → ℕ
count_tasks [] = 0
count_tasks (t ∷ ts) = 1 + count_tasks ts

unfoldable pub summary : RunRecord → RunStatus → List TaskRecord → RunSummary
unfolding counts_of count_tasks
summary run status tasks = record {
  run_id = run.run_id;
  name = run.name;
  status = run_status_value status;
  task_counts = counts_of all_statuses tasks;
  task_total = count_tasks tasks;
}

unfoldable pub get_run_status : {E : Type 0} → Env → String → Act E RunSummary
unfolding summary
get_run_status env run_id = do
  status ← refresh_run_status env run_id
  found ← ask (get_run run_id)
  tasks ← ask (list_tasks run_id)
  elim found [ none ↦ throw key_error | some run ↦ pure (summary run status tasks) ]
