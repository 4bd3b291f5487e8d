-- ===== src/Orchestrator/Creation/Seeds.antt =====
-- A seed that the checks of a configuration (validation/configs.py) admit and a run (orchestrator/runner.py)
-- takes, and the column of 64 bits for it (state/sqlite.py).
use fine_tune_harness.Base.{
  ℕ, ◌≤◌, String, false, some, ◌&&◌, if◌then◌else◌, ◌==◌, ◌≡◌, refl, ◌∙◌, arith, eq_iff,
}
use fine_tune_harness.Base.Int.{ℤ, pos, negsuc}
use fine_tune_harness.Effects.{return, raise, overflow_error}
use fine_tune_harness.World.{Env}
use fine_tune_harness.State.Value.{
  Value, null, int, dict, Fields, end, field, get, get_or, has, set,
}
use fine_tune_harness.State.Sqlite.{Database}
use fine_tune_harness.State.Sqlite.Runs.{create_run, bind_int, bind_seed, insert_run}
use fine_tune_harness.Validation.Configs.{
  validate_run_config, guard, in_turn, validate_project, validate_executor, validate_artifacts,
  validate_reproducibility, validate_seed, validate_dataset_hash, is_seed,
}
use fine_tune_harness.Validation.Configs.Soundness.{guard-lem, in_turn-lem}
use fine_tune_harness.Orchestrator.Creation.{seed_of, new_run}

-- The int is below -2 ^ 63 or from 2 ^ 63 on.
abbrev pub IsBeyond64Bits : ℤ → Type 0
IsBeyond64Bits (pos n) = 9223372036854775808 ≤ n
IsBeyond64Bits (negsuc n) = 9223372036854775808 ≤ n

get-set :
    (k j : String) (v : Value) (fields : Fields)
    → get j (set k v fields) ≡ (if k == j then some v else get j fields)
unfolding get set
get-set k j v end = refl
get-set k j v (field i w rest) =
    ground (arith, get-set k j v rest, eq_iff i k, eq_iff i j, eq_iff k j)

get-kept :
    (j : String) (v : Value) (fields : Fields)
    → "seed" == j ≡ false
    → get j (set "seed" v fields) ≡ get j fields
get-kept j v fields other = get-set "seed" j v fields ∙ rw other refl

get-seed : (v : Value) (fields : Fields) → get "seed" (set "seed" v fields) ≡ some v
get-seed v fields = get-set "seed" "seed" v fields

has-kept :
    (j : String) (v : Value) (fields : Fields)
    → "seed" == j ≡ false
    → has j (set "seed" v fields) ≡ has j fields
unfolding has
has-kept j v fields other = rw (get-kept j v fields other, has) refl

get_or-kept :
    (j : String) (w v : Value) (fields : Fields)
    → "seed" == j ≡ false
    → get_or j w (set "seed" v fields) ≡ get_or j w fields
unfolding get_or
get_or-kept j w v fields other = rw (get-kept j v fields other, get_or) refl

hash-kept :
    (v : Value) (fields : Fields)
    → validate_dataset_hash (set "seed" v fields) ≡ validate_dataset_hash fields
unfolding validate_dataset_hash
hash-kept v fields =
    rw
      (
        get_or-kept "dataset_hash" null v fields refl,
        get_or-kept "datasets" null v fields refl,
        validate_dataset_hash,
      )
      refl

seed-valid : (n : ℤ) (fields : Fields) → validate_seed (set "seed" (int n) fields) ≡ return tt
unfolding validate_seed get_or guard is_seed
seed-valid n fields = rw (get-seed (int n) fields, get_or, validate_seed) refl

reproducibility-kept :
    (n : ℤ) (fields : Fields)
    → validate_reproducibility fields ≡ return tt
    → validate_reproducibility (set "seed" (int n) fields) ≡ return tt
unfolding validate_reproducibility in_turn
reproducibility-kept n fields h =
    rw
      (
        seed-valid n fields,
        hash-kept (int n) fields,
        (in_turn-lem (validate_seed fields) (validate_dataset_hash fields) h).1,
        validate_reproducibility,
      )
      refl

-- The check of the seed passes, and no other reads the seed.
seeded-valid :
    (config : Fields) (n : ℤ)
    → validate_run_config (dict config) ≡ return tt
    → validate_run_config (dict (set "seed" (int n) config)) ≡ return tt
unfolding validate_run_config in_turn guard
seeded-valid config n valid =
    let project_of = validate_project (get_or "project" null config) in
    let executor_of = validate_executor (get_or "executor" null config) in
    let artifacts_of = validate_artifacts (get_or "artifacts" null config) in
    let last_of = validate_reproducibility config in
    let (sections, checks) =
      guard-lem (has "project" config && (has "executor" config && has "artifacts" config))
        (in_turn project_of (in_turn executor_of (in_turn artifacts_of last_of))) valid in
    let (project, rest) =
      in_turn-lem project_of (in_turn executor_of (in_turn artifacts_of last_of)) checks in
    let (executor, rest₁) = in_turn-lem executor_of (in_turn artifacts_of last_of) rest in
    let (artifacts, last) = in_turn-lem artifacts_of last_of rest₁ in
    rw
      (
        has-kept "project" (int n) config refl,
        has-kept "executor" (int n) config refl,
        has-kept "artifacts" (int n) config refl,
        get_or-kept "project" null (int n) config refl,
        get_or-kept "executor" null (int n) config refl,
        get_or-kept "artifacts" null (int n) config refl,
        sections,
        project,
        executor,
        artifacts,
        reproducibility-kept n config last,
        validate_run_config,
      )
      refl

refused-lem : (n : ℤ) → IsBeyond64Bits n → bind_int n ≡ raise overflow_error
unfolding bind_int
refused-lem (pos n) big = ground arith
refused-lem (negsuc n) big = ground arith

-- A configuration that passes the checks passes them with any int as its seed, and the run takes that
-- seed; yet when it is beyond 64 bits the database refuses every such run with OverflowError and
-- stores nothing.
pub create_run_overflow :
    (env : Env) (config : Fields) (n : ℤ)
    → validate_run_config (dict config) ≡ return tt
    → IsBeyond64Bits n
    → (validate_run_config (dict (set "seed" (int n) config)) ≡ return tt)
      × (seed_of (set "seed" (int n) config) ≡ return (int n))
      × ((run_id name : String) (created_at : ℕ) (hashes : Fields) (db : Database)
          → create_run
              (new_run env run_id name (set "seed" (int n) config) created_at (int n) hashes)
              db
            ≡ (raise overflow_error, db))
unfolding create_run bind_seed insert_run new_run seed_of
create_run_overflow env config n valid big = (
  seeded-valid config n valid,
  rw (get-seed (int n) config, seed_of) refl,
  λ run_id name created_at hashes db. rw (refused-lem n big) refl,
)
