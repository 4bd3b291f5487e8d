-- ===== src/Executor/Session.antt =====
-- executor/worker.py: what a worker is configured with, and the steps that run_once is made of.
use fine_tune_harness.Base.{
  ℕ, ◌+◌, String, Bool, true, false, Option, none, some, List, [], ◌∷◌, ltb, if◌then◌else◌, lookup,
  insert, has_key,
}
use fine_tune_harness.Base.Int.{ℤ, pos, negsuc}
use fine_tune_harness.Effects.{Result, return, raise, type_error, timeout_error}
use fine_tune_harness.World.{Env, Act, record_event}
use fine_tune_harness.State.Value.{
  Value, null, bool, int, str, list, Items, nil, cons, Fields, end, field, Float, get_or,
}
use fine_tune_harness.State.Models.{RunStatus, TaskRecord, ArtifactRecord}
use fine_tune_harness.State.Memory.{Store, get_run, lease_next_pending_task}
use fine_tune_harness.State.Memory.Recovery.{create_artifact}
use fine_tune_harness.Orchestrator.Hooks.{HookRegistry, Call, fire, hook_names}
use fine_tune_harness.Executor.Conversion.{to_int, at_least_one}
use fine_tune_harness.World.{stamp_at}

-- What a handler leaves: what it returned or raised, the payload (it may have changed its copy), how
-- long it took, in whole seconds and as measured, and the outside world.
pub record HandlerRun (E : Type 0) : Type 0 where
  pub outcome : Result Value
  pub payload : Fields
  pub seconds : ℕ
  pub wall_seconds : Float
  pub outside : E

abbrev pub Handler : Type 0 → Type 0
Handler E = TaskRecord → E → HandlerRun E

-- The store of artifacts is not part of the repository: it writes to the outside world, may raise,
-- and gives the records of the artifacts that it registered.
abbrev pub ArtifactWriter : Type 0 → Type 0
ArtifactWriter E = TaskRecord → Fields → E → Result (List ArtifactRecord) × E

-- `seed_rngs` sets the state of the random generators; `parse_int` is `int` on a text.
pub record Worker (E : Type 0) : Type 0 where
  pub worker_id : String
  pub artifact_store : Option (ArtifactWriter E)
  pub max_attempts : ℤ
  pub timeout_seconds : Option ℤ
  pub hooks : HookRegistry E
  pub sandbox : Handler E → Handler E
  pub max_oom_retries : ℕ
  pub seed_rngs : ℤ → E → Result (Unit {0}) × E
  pub parse_int : String → Option ℤ

-- executor/policy.py: the sandbox that runs the handler in the process.
unfoldable pub no_sandbox : {E : Type 0} → Handler E → Handler E
no_sandbox handler = handler

abbrev pub lease_seconds : ℕ
lease_seconds = 300

unfoldable pub str_list : List String → Items
str_list [] = nil
str_list (s ∷ ss) = cons (str s) (str_list ss)

abbrev pub about_task : TaskRecord → Call
about_task task = record {
  task = some task;
  result = none;
  error = none;
  run_id = none;
  status = none;
}

unfoldable pub add_artifacts : List ArtifactRecord → Store → Store
add_artifacts [] s = s
add_artifacts (a ∷ rest) s = add_artifacts rest (create_artifact a s)

unfoldable pub register_artifacts :
    {E : Type 0} → Result (List ArtifactRecord) → E → Act E (Unit {0})
unfolding add_artifacts
register_artifacts (raise e) x w = (raise e, record w { outside = x })
register_artifacts (return made) x w =
    (return tt, record w { store = add_artifacts made w.store; outside = x })

module _ {E : Type 0} (env : Env) (wk : Worker E) where
  -- The hooks change the dictionaries of the call and the outside world, nothing else.
  unfoldable pub fire_hooks : String → Call → Act E Call
  fire_hooks point call w =
      let (call', outside') = fire wk.hooks point call w.outside in
      (return call', record w { outside = outside' })

  unfoldable pub note_hooks : String → TaskRecord → String → Act E (Unit {0})
  unfolding str_list
  note_hooks run_id task point =
      record_event env run_id (some task.task_id) "hook_fired" (
        field "point" (str point) (field "hooks" (list (str_list (hook_names point wk.hooks))) end))

  unfoldable pub status_changed : String → RunStatus → Act E Call
  unfolding fire_hooks
  status_changed run_id status = fire_hooks "on_run_status_changed" (record {
    task = none;
    result = none;
    error = none;
    run_id = some run_id;
    status = some status;
  })

  -- The first time that a run is seen its seed is cached and the hooks of its start are fired.
  unfoldable pub begin_run : String → Act E (Unit {0})
  unfolding fire_hooks
  begin_run run_id w =
      let seed : Option Value = elim (get_run run_id w.store) [
        | none ↦ none
        | some run ↦ run.seed
      ] in
      let started = record w { run_seeds = insert run_id seed w.run_seeds } in
      let call : Call = record {
        task = none;
        result = none;
        error = none;
        run_id = some run_id;
        status = none;
      } in
      if has_key run_id w.run_seeds
      then (return tt, w)
      else (return tt, (fire_hooks "before_run_start" call started).1)

  -- orchestrator/scheduler.py: the first two readings are of the clock, the third stamps the event.
  unfoldable pub lease_next_task : String → Act E (Option TaskRecord)
  lease_next_task run_id w =
      let (leased, store') =
        lease_next_pending_task (env.now w.reads) (env.now (w.reads + 1))
          (stamp_at env (w.reads + 2)) run_id wk.worker_id lease_seconds w.store in
      (return leased, record w { store = store'; reads = w.reads + 3 })

  -- executor/seeding.py: a seed must be an int, and a bool is one.
  unfoldable pub apply_seed : Value → Act E (Unit {0})
  apply_seed (int n) w = let (r, x) = wk.seed_rngs n w.outside in (r, record w { outside = x })
  apply_seed (bool b) w =
      let (r, x) = wk.seed_rngs (if b then pos 1 else pos 0) w.outside in
      (r, record w { outside = x })
  apply_seed _ w = (raise type_error, w)

  unfoldable pub seed_run : String → Act E (Unit {0})
  unfolding apply_seed
  seed_run run_id w = elim (lookup run_id w.run_seeds) [
    | none ↦ (return tt, w)
    | some cached ↦ elim cached [ none ↦ (return tt, w) | some seed ↦ apply_seed seed w ]
  ]

  unfoldable pub write_artifact : TaskRecord → Fields → Act E (Unit {0})
  unfolding register_artifacts
  write_artifact task result w = elim wk.artifact_store [
    | none ↦ (return tt, w)
    | some write ↦ let (r, x) = write task result w.outside in register_artifacts r x w
  ]

  unfoldable pub resolve_max_attempts : TaskRecord → Result ℕ
  unfolding to_int at_least_one get_or
  resolve_max_attempts task =
      elim (to_int wk.parse_int (get_or "max_attempts" (int wk.max_attempts) task.payload)) [
        | raise e ↦ raise e
        | return n ↦ return (at_least_one n)
      ]

  abbrev default_timeout : Value
  default_timeout = elim wk.timeout_seconds [ none ↦ null | some t ↦ int t ]

  unfoldable pub to_timeout : Value → Result (Option ℤ)
  unfolding to_int
  to_timeout null = return none
  to_timeout raw = elim (to_int wk.parse_int raw) [ raise e ↦ raise e | return n ↦ return (some n) ]

  unfoldable pub resolve_timeout : TaskRecord → Result (Option ℤ)
  unfolding to_timeout get_or
  resolve_timeout task = to_timeout (get_or "timeout_seconds" default_timeout task.payload)

  -- The worker stops waiting when the handler has taken longer than the limit.
  unfoldable pub exceeds : Option ℤ → ℕ → Bool
  exceeds none seconds = false
  exceeds (some (pos limit)) seconds = ltb limit seconds
  exceeds (some (negsuc _)) seconds = true

  unfoldable pub execute : Handler E → TaskRecord → Option ℤ → E → HandlerRun E
  unfolding exceeds
  execute handler task limit x =
      let done = wk.sandbox handler task x in
      if exceeds limit done.seconds then record done { outcome = raise timeout_error } else done
