-- ===== src/Orchestrator/Creation/Promises.antt =====
-- What the creation and the summary of a run (orchestrator/runner.py) promise.
use fine_tune_harness.Base.{
  ℕ, ◌+◌, String, Bool, true, false, none, some, List, [], ◌∷◌, Dict, ◌≡◌, ◌≢◌, refl, ◌∙◌, inl, inr,
  arith, Option-cases,
}
use mathlib.Core.Path.{subst}
use fine_tune_harness.Effects.{return}
use fine_tune_harness.State.Value.{Value, null, dict, Fields, end, field, get, get_or}
use fine_tune_harness.State.Models.{TaskStatus, TaskRecord}
use fine_tune_harness.Orchestrator.Lifecycle.{task_is}
use fine_tune_harness.Orchestrator.Creation.{
  dataset_hashes, all_statuses, count_status, counts_of, count_tasks,
}
use fine_tune_harness.Validation.Configs.{validate_run_config, is_hash_text}
use fine_tune_harness.Validation.Configs.Soundness.{validate_run_config_sound, HasDatasetHash}

-- The sum of the numbers of a dictionary.
unfoldable pub total_of : Dict ℕ → ℕ
total_of [] = 0
total_of ((_, n) ∷ rest) = n + total_of rest

sum_statuses : List (TaskStatus × String) → List TaskRecord → ℕ
sum_statuses [] tasks = 0
sum_statuses ((status, _) ∷ rest) tasks = count_status status tasks + sum_statuses rest tasks

sum-lem :
    (statuses : List (TaskStatus × String)) (tasks : List TaskRecord)
    → total_of (counts_of statuses tasks) ≡ sum_statuses statuses tasks
unfolding total_of counts_of sum_statuses
sum-lem [] tasks = refl
sum-lem ((status, name) ∷ rest) tasks = ground (arith, sum-lem rest tasks)

one-lem : (t : TaskRecord) (s : TaskStatus) → t.status ≡ s → sum_statuses all_statuses (t ∷ []) ≡ 1
unfolding sum_statuses count_status task_is
one-lem t TaskStatus.pending e = rw e refl
one-lem t TaskStatus.leased e = rw e refl
one-lem t TaskStatus.running e = rw e refl
one-lem t TaskStatus.succeeded e = rw e refl
one-lem t TaskStatus.failed e = rw e refl
one-lem t TaskStatus.timed_out e = rw e refl
one-lem t TaskStatus.degenerate e = rw e refl
one-lem t TaskStatus.cancelled e = rw e refl

step-lem :
    (statuses : List (TaskStatus × String)) (t : TaskRecord) (ts : List TaskRecord)
    → sum_statuses statuses (t ∷ ts) ≡ sum_statuses statuses (t ∷ []) + sum_statuses statuses ts
unfolding sum_statuses count_status
step-lem [] t ts = refl
step-lem ((status, name) ∷ rest) t ts = ground (arith, step-lem rest t ts)

all-lem : (tasks : List TaskRecord) → sum_statuses all_statuses tasks ≡ count_tasks tasks
unfolding sum_statuses count_status count_tasks
all-lem [] = refl
all-lem (t ∷ ts) = ground (arith, step-lem all_statuses t ts, one-lem t t.status refl, all-lem ts)

-- The counts of a summary add up to its total: no task is lost or counted twice.
counts_of_total :
    (tasks : List TaskRecord) → total_of (counts_of all_statuses tasks) ≡ count_tasks tasks
counts_of_total tasks = sum-lem all_statuses tasks ∙ all-lem tasks

dict-lem : {a b : Fields} → ◌≡◌ {A = Value} (dict a) (dict b) → b ≡ a
dict-lem e = cc

hashed-lem :
    (config : Fields) → validate_run_config (dict config) ≡ return tt → HasDatasetHash config
hashed-lem config valid =
    let (fields, (same, (_, (_, hashed)))) = validate_run_config_sound (dict config) valid in
    subst HasDatasetHash (dict-lem same) hashed

get-lem :
    (key : String) (config : Fields) (v : Value)
    → get key config ≡ some v
    → get_or key null config ≡ v
unfolding get_or
get-lem key config v found = rw (found, get_or) refl

none-lem : (key : String) (config : Fields) → get key config ≡ none → get_or key null config ≡ null
unfolding get_or
none-lem key config absent = rw (absent, get_or) refl

some-lem :
    (key : String) (config : Fields) (hashes : Fields)
    → get_or key null config ≡ dict hashes
    → get key config ≡ some (dict hashes)
unfolding get_or
some-lem key config hashes h = ground arith

text-lem : (v : Value) → v ≡ null → is_hash_text v ≡ true → ⊥
unfolding is_hash_text
text-lem v e h = true-false (rw e at h)
  where
    true-false : ◌≡◌ {A = Bool} false true → ⊥
    true-false e = cc

-- A configuration that passes the checks with `dataset_hash` null has hashes by split, and yet the
-- run records the single hash null.
pub dataset_hashes_loses_splits :
    (config : Fields)
    → validate_run_config (dict config) ≡ return tt
    → get "dataset_hash" config ≡ some null
    → (dataset_hashes config ≡ return (field "default" null end))
      × ((hashes : Fields) × ((get_or "datasets" null config ≡ dict hashes) × (hashes ≢ end)))
unfolding dataset_hashes
dataset_hashes_loses_splits config valid given = (
  rw (given, dataset_hashes) refl,
  elim (hashed-lem config valid) [
    | inl hashed ↦ absurd (text-lem _ (get-lem "dataset_hash" config null given) hashed)
    | inr (_, (hashes, (found, (some_split, _)))) ↦ (hashes, (found, some_split))
  ],
)

-- The hashes of a configuration that passes the checks can always be read.
pub dataset_hashes_total :
    (config : Fields)
    → validate_run_config (dict config) ≡ return tt
    → (hashes : Fields) × (dataset_hashes config ≡ return hashes)
unfolding dataset_hashes
dataset_hashes_total config valid = elim (Option-cases (get "dataset_hash" config)) [
  | inr (hash, there) ↦ (field "default" hash end, rw (there, dataset_hashes) refl)
  | inl absent ↦ elim (hashed-lem config valid) [
    | inl hashed ↦ absurd (text-lem _ (none-lem "dataset_hash" config absent) hashed)
    | inr (_, (hashes, (found, _))) ↦
        (hashes, rw (absent, some-lem "datasets" config hashes found, dataset_hashes) refl)
  ]
]
