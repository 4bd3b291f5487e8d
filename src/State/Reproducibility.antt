-- ===== src/State/Reproducibility.antt =====
-- state/reproducibility.py: how reproducible a run is, from what was recorded of it. A warning is its
-- kind: the texts are not modelled, but for the choice that one of them makes.
pub mod Levels
use fine_tune_harness.Base.{
  ℕ, String, Bool, true, false, not, ◌&&◌, ◌||◌, Option, none, some, List, [], ◌∷◌, ◌++◌,
  if◌then◌else◌, ◌==◌, ◌≡◌, ◌≢◌, refl, ◌⊎◌, inl, inr, arith, Bool-cases,
}
use fine_tune_harness.Effects.{Result, return, raise, attribute_error, type_error}
use fine_tune_harness.State.Value.{
  Value, null, str, list, dict, Fields, end, field, get_or, truthy, is_null,
}
use fine_tune_harness.State.Models.{RunRecord, EventRecord}

pub data Level : Type 0 where
  pass partial fail : Level

pub data Warning : Type 0 where
  resource_aware_mode determinism_not_forced cublas_config_unset launch_blocking_unset : Warning
  git_dirty : (diff_hash_known : Bool) → Warning
  no_container_digest : (image_known : Bool) → Warning

pub record ReproducibilityAssessment : Type 0 where
  pub level : Level
  pub bitwise_reproducible : Bool
  pub replayable : Bool
  pub missing_fields : List String
  pub warnings : List Warning

unfoldable pub member : String → List String → Bool
member x [] = false
member x (y ∷ ys) = x == y || member x ys

-- The modes of the `drain_started` events, each once, in the order in which they were first seen.
unfoldable pub note_mode : Value → List String → List String
unfolding member
note_mode (str mode) seen = if member mode seen then seen else seen ++ mode ∷ []
note_mode _ seen = seen

unfoldable pub modes_from : List EventRecord → List String → List String
unfolding note_mode
modes_from [] seen = seen
modes_from (e ∷ events) seen =
    modes_from events
      (if e.kind == "drain_started" then note_mode (get_or "mode" null e.payload) seen else seen)

unfoldable pub drain_modes : List EventRecord → List String
unfolding modes_from
drain_modes events = modes_from events []

-- `field` is listed when `present` does not hold.
unfoldable pub unless {ℓ} : {A : Type ℓ} → Bool → A → List A
unless true a = []
unless false a = a ∷ []

unfoldable pub seed_known : Option Value → Bool
seed_known none = false
seed_known (some v) = not (is_null v)

unfoldable pub text_known : Option String → Bool
text_known none = false
text_known (some s) = not (s == "")

unfoldable pub missing_fields : RunRecord → List String
unfolding unless seed_known text_known
missing_fields run =
    unless (seed_known run.seed) "seed"
    ++ (unless (truthy (dict run.dataset_hashes)) "dataset_hashes"
        ++ (unless (text_known run.config_hash) "config_hash"
            ++ unless (truthy (get_or "git_commit" null run.env_snapshot))
                "env_snapshot.git_commit"))

-- A dictionary of the snapshot: `.get` on any other value raises AttributeError.
unfoldable pub section_of : String → Fields → Result Fields
section_of key snapshot = elim (get_or key (dict end) snapshot) [
  | dict fields ↦ return fields
  | _ ↦ raise attribute_error
]

unfoldable pub forced : Fields → Bool
forced det = truthy (get_or "harness_enforces_determinism" null det)

unfoldable pub is_one : Value → Bool
is_one (str s) = s == "1"
is_one _ = false

unfoldable pub determinism_warnings : Fields → List Warning
unfolding unless forced is_one
determinism_warnings det =
    unless (forced det) determinism_not_forced
    ++ (unless (not (is_null (get_or "CUBLAS_WORKSPACE_CONFIG" null det))) cublas_config_unset
        ++ unless (is_one (get_or "CUDA_LAUNCH_BLOCKING" null det)) launch_blocking_unset)

-- The hash of the diff is cut to twelve items, which only a text or a list allows.
unfoldable pub diff_warning : Value → Result (List Warning)
diff_warning (str s) = return (git_dirty (truthy (str s)) ∷ [])
diff_warning (list xs) = return (git_dirty (truthy (list xs)) ∷ [])
diff_warning v = if truthy v then raise type_error else return (git_dirty false ∷ [])

unfoldable pub dirty_warnings : Fields → Result (List Warning)
unfolding diff_warning
dirty_warnings snapshot =
    if truthy (get_or "git_dirty" null snapshot)
    then diff_warning (get_or "git_diff_hash" null snapshot)
    else return []

unfoldable pub mode_warnings : List EventRecord → List Warning
unfolding drain_modes member unless
mode_warnings events =
    unless (not (member "resource_aware" (drain_modes events))) resource_aware_mode

-- The level of a run that has all the metadata.
unfoldable pub grade : (is_forced : Bool) → List Warning → Fields → ReproducibilityAssessment
grade is_forced warnings container =
    if truthy (get_or "digest" null container)
    then record {
      level = if is_forced then pass else partial;
      bitwise_reproducible = false;
      replayable = true;
      missing_fields = [];
      warnings = warnings;
    }
    else record {
      level = partial;
      bitwise_reproducible = false;
      replayable = true;
      missing_fields = [];
      warnings = warnings ++ no_container_digest (truthy (get_or "image" null container)) ∷ [];
    }

-- What the assessment is once the container is known, or cannot be read.
unfoldable pub grade_in :
    (is_forced : Bool) → List Warning → Result Fields → Result ReproducibilityAssessment
unfolding grade
grade_in is_forced warnings (return container) = return (grade is_forced warnings container)
grade_in is_forced warnings (raise e) = raise e

-- A run that lacks a hard requirement is FAIL, whatever its container is.
unfoldable pub judge_run :
    RunRecord
    → (is_forced : Bool) → List Warning
    → (missing : List String) → Result ReproducibilityAssessment
unfolding section_of grade_in
judge_run run is_forced warnings (m ∷ ms) = return (record {
  level = fail;
  bitwise_reproducible = false;
  replayable = false;
  missing_fields = m ∷ ms;
  warnings = warnings;
})
judge_run run is_forced warnings [] =
    grade_in is_forced warnings (section_of "container" run.env_snapshot)

unfoldable pub judge_with :
    RunRecord → List EventRecord → Fields → Result (List Warning) → Result ReproducibilityAssessment
unfolding mode_warnings determinism_warnings missing_fields judge_run
judge_with run events det (return dirty) =
    judge_run run (forced det) (mode_warnings events ++ (determinism_warnings det ++ dirty))
      (missing_fields run)
judge_with run events det (raise e) = raise e

unfoldable pub assess_reproducibility :
    RunRecord → List EventRecord → Result ReproducibilityAssessment
unfolding section_of dirty_warnings judge_with
assess_reproducibility run events = elim (section_of "determinism_env" run.env_snapshot) [
  | raise e ↦ raise e
  | return det ↦ judge_with run events det (dirty_warnings run.env_snapshot)
]
