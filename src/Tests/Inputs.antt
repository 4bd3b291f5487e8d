-- ===== src/Tests/Inputs.antt =====
-- The theorems on configurations, results, manifests and skills at concrete inputs.
use fine_tune_harness.Base.{String, some}
use fine_tune_harness.Base.{
  ℕ, true, false, not, none, [], ◌∷◌, ◌≡◌, ◌≢◌, refl, lookup, insert, has_key,
}
use fine_tune_harness.Base.Int.{ℤ, pos}
use fine_tune_harness.Base.Text.{codes, is_blank}
use fine_tune_harness.Effects.{Result, return}
use fine_tune_harness.State.Value.{
  Value, null, int, str, dict, Fields, end, field, get, get_or, has, set, truthy, is_null,
}
use fine_tune_harness.State.Models.{RunStatus, TaskStatus, TaskRecord}
use fine_tune_harness.State.Reproducibility.{
  ReproducibilityAssessment, fail, assess_reproducibility, section_of, dirty_warnings, judge_with,
  mode_warnings, determinism_warnings, missing_fields, judge_run, unless, seed_known, text_known,
  drain_modes, modes_from, member, forced, is_one, determinism_not_forced, cublas_config_unset,
  launch_blocking_unset,
}
use fine_tune_harness.State.Reproducibility.Levels.{Verdict, assess_reproducibility_sound}
use fine_tune_harness.Validation.Configs.{
  validate_run_config, guard, in_turn, validate_project, validate_executor, validate_artifacts,
  validate_reproducibility, validate_seed, validate_dataset_hash, validate_datasets, all_hash_texts,
  is_hash_text, is_seed, is_non_empty_text,
}
use fine_tune_harness.Validation.Configs.Soundness.{HasDatasetHash, validate_run_config_sound}
use fine_tune_harness.Orchestrator.Creation.{dataset_hashes}
use fine_tune_harness.Orchestrator.Creation.Promises.{
  dataset_hashes_total, dataset_hashes_loses_splits,
}
use fine_tune_harness.State.Models.{ArtifactRecord}
use fine_tune_harness.State.Manifest.{
  Manifest, manifest, manifest_with, export_manifest, Entry, export_manifest_hashes,
}
use fine_tune_harness.Registry.Dispatcher
use fine_tune_harness.Registry.Dispatcher.{dispatch, dispatch-register, validate_task_payload}
use fine_tune_harness.Registry.Skills.{
  SkillSpec, execute, call_skill, validate_input, validate_output, checked_output, check_all,
  check_schema, run_custom, update, Executed, execute-Executed,
}
use fine_tune_harness.Registry.BuiltinHooks.{
  EarlyStoppingHook, exact_int, exact_difference, difference, after_all, count, after_all_stops,
}
use fine_tune_harness.Evaluation.Floats.{signed}
use fine_tune_harness.State.Value.{finite, float_lt}
use fine_tune_harness.Base.{inr}
use fine_tune_harness.Base.Int.{negsuc}
use fine_tune_harness.Base.{arith}
use fine_tune_harness.Effects.{raise, overflow_error}
use fine_tune_harness.Orchestrator.Creation.{seed_of, new_run}
use fine_tune_harness.Orchestrator.Creation.Seeds.{create_run_overflow}
use fine_tune_harness.State.Sqlite.{Database}
use fine_tune_harness.State.Sqlite.Runs.{create_run}
use fine_tune_harness.Tests.{env, task_as, run_as}

-- A configuration with hashes by split and a single hash that is null.
abbrev config : Fields
config = field "project" (dict (field "name" (str "p") end)) (
    field "executor" (dict end) (
      field "artifacts" (dict (field "root" (str "out") end)) (
        field "seed" (int (pos 42))
          (field "dataset_hash" null (field "datasets" (dict (field "train" (str "h") end)) end)))))

config-valid : validate_run_config (dict config) ≡ return tt
unfolding validate_run_config guard in_turn validate_project validate_executor validate_artifacts
    validate_reproducibility validate_seed validate_dataset_hash validate_datasets all_hash_texts
    is_hash_text is_seed is_non_empty_text get get_or has truthy is_null codes is_blank
config-valid = refl

validate_run_config_sound_example :
    (fields : Fields) × ((dict config ≡ dict fields)
      × (((has "project" fields ≡ true)
            × ((has "executor" fields ≡ true) × (has "artifacts" fields ≡ true)))
          × (((seed : ℤ) × (get_or "seed" null fields ≡ int seed)) × HasDatasetHash fields)))
validate_run_config_sound_example = validate_run_config_sound (dict config) config-valid

dataset_hashes_total_example : (hashes : Fields) × (dataset_hashes config ≡ return hashes)
dataset_hashes_total_example = dataset_hashes_total config config-valid

dataset_hashes_loses_splits_example :
    (dataset_hashes config ≡ return (field "default" null end))
    × ((hashes : Fields) × ((get_or "datasets" null config ≡ dict hashes) × (hashes ≢ end)))
unfolding get
dataset_hashes_loses_splits_example = dataset_hashes_loses_splits config config-valid refl

abbrev bare_assessment : ReproducibilityAssessment
bare_assessment = record {
  level = fail;
  bitwise_reproducible = false;
  replayable = false;
  missing_fields = "dataset_hashes" ∷ "env_snapshot.git_commit" ∷ [];
  warnings = determinism_not_forced ∷ cublas_config_unset ∷ launch_blocking_unset ∷ [];
}

bare_run : assess_reproducibility (run_as RunStatus.completed) [] ≡ return bare_assessment
unfolding assess_reproducibility section_of dirty_warnings judge_with mode_warnings
    determinism_warnings missing_fields judge_run unless seed_known text_known drain_modes
    modes_from member forced is_one get get_or truthy is_null
bare_run = refl

assess_reproducibility_sound_example : Verdict (run_as RunStatus.completed) bare_assessment
assess_reproducibility_sound_example =
    assess_reproducibility_sound (run_as RunStatus.completed) [] bare_assessment bare_run

abbrev skill : SkillSpec (Unit {0})
skill = record {
  name = "lora";
  description = "";
  input_schema = ("rank", λ v. not (is_null v)) ∷ [];
  output_schema = ("loss", λ v. not (is_null v)) ∷ [];
  handler = λ t payload x. (return (field "loss" (int (pos 1)) end), x);
  validate_input = none;
  validate_output = none;
}

abbrev skill_call : Result Fields
skill_call =
    (execute (("lora", skill) ∷ []) "lora" (task_as "a" TaskStatus.running 1)
      (field "rank" (int (pos 8)) end) tt).0

skill_returns : skill_call ≡ return (field "loss" (int (pos 1)) end)
unfolding execute call_skill validate_input validate_output checked_output check_all check_schema
    run_custom update lookup get set is_null
skill_returns = refl

execute-Executed_example :
    Executed
      (("lora", skill) ∷ [])
      "lora"
      (field "rank" (int (pos 8)) end)
      (field "loss" (int (pos 1)) end)
unfolding update set
execute-Executed_example =
    execute-Executed (("lora", skill) ∷ []) "lora" (task_as "a" TaskStatus.running 1)
      (field "rank" (int (pos 8)) end) tt (field "loss" (int (pos 1)) end) skill_returns

abbrev prune_task : TaskRecord
prune_task = record (task_as "a" TaskStatus.running 1) { payload = field "kind" (str "prune") end }

abbrev answer_with : ℕ → TaskRecord → Unit {0} → Result Value × Unit {0}
answer_with n task x = (return (int (pos n)), x)

dispatch-register_example :
    dispatch (("prune", answer_with 1) ∷ ("distill", answer_with 2) ∷ []) prune_task tt
    ≡ dispatch (("prune", answer_with 1) ∷ []) prune_task tt
unfolding Dispatcher.register has_key lookup insert validate_task_payload get codes is_blank
dispatch-register_example =
    dispatch-register "distill" (answer_with 2) (("prune", answer_with 1) ∷ [])
      (("prune", answer_with 1) ∷ ("distill", answer_with 2) ∷ []) prune_task "prune" tt refl refl

-- A hook that has seen nothing better than 1 for one task.
abbrev hook : EarlyStoppingHook
hook = record {
  metric = "accuracy";
  patience = 2;
  min_delta = finite (pos 1) 10;
  mode = "max";
  best = int (pos 1);
  counter = 1;
  should_stop = false;
}

abbrev scored : ℤ → Fields
scored n = field "accuracy" (int n) end

after_all_stops_example :
    ((after_all (scored (pos 3) ∷ scored (pos 3) ∷ scored (pos 2) ∷ []) hook).best ≡ int (pos 3))
    × (((after_all (scored (pos 3) ∷ scored (pos 3) ∷ scored (pos 2) ∷ []) hook).counter ≡ 2)
        × ((after_all (scored (pos 3) ∷ scored (pos 3) ∷ scored (pos 2) ∷ []) hook).should_stop
            ≡ true))
unfolding is_null get count difference exact_int exact_difference signed float_lt
after_all_stops_example =
    after_all_stops hook (scored (pos 3)) (int (pos 3)) (scored (pos 3) ∷ scored (pos 2) ∷ []) refl
      refl (inr (finite (pos 2) 0, refl, refl))
      (
        (int (pos 3), (refl, (finite (pos 0) 0, refl, refl))),
        ((int (pos 2), (refl, (finite (negsuc 0) 0, refl, refl))), tt),
      )

abbrev artifact_as : String → String → ArtifactRecord
artifact_as id checksum = record {
  artifact_id = id;
  run_id = "r";
  task_id = some "a";
  kind = "task_result";
  path = "out";
  checksum = checksum;
}

abbrev bare_manifest : Manifest
bare_manifest =
    manifest (run_as RunStatus.completed) [] (artifact_as "x" "1" ∷ artifact_as "y" "2" ∷ []) []
      bare_assessment

bare_export :
    export_manifest
      (run_as RunStatus.completed)
      []
      (artifact_as "x" "1" ∷ artifact_as "y" "2" ∷ [])
      []
    ≡ return bare_manifest
unfolding export_manifest manifest_with
bare_export = rw bare_run refl

export_manifest_hashes_example :
    Entry "x" (artifact_as "x" "1" ∷ artifact_as "y" "2" ∷ []) bare_manifest
export_manifest_hashes_example =
    export_manifest_hashes (run_as RunStatus.completed) []
      (artifact_as "x" "1" ∷ artifact_as "y" "2" ∷ []) [] bare_manifest bare_export "x"

create_run_overflow_example :
    (validate_run_config (dict (set "seed" (int (pos 9223372036854775808)) config)) ≡ return tt)
    × (seed_of (set "seed" (int (pos 9223372036854775808)) config)
        ≡ return (int (pos 9223372036854775808)))
    × ((run_id name : String) (created_at : ℕ) (hashes : Fields) (db : Database)
        → create_run
            (new_run env run_id name
              (set "seed" (int (pos 9223372036854775808)) config)
              created_at
              (int (pos 9223372036854775808))
              hashes)
            db
          ≡ (raise overflow_error, db))
create_run_overflow_example =
    create_run_overflow env config (pos 9223372036854775808) config-valid (omega arith)
