-- ===== src/Validation/Configs.antt =====
-- validation/configs.py: the checks of the configuration of a run. Every check that fails raises
-- ValueError; the warning about the legacy field `max_workers` changes nothing and is not modelled.
pub mod Soundness
use fine_tune_harness.Base.{
  ℕ, String, Bool, true, false, not, ◌&&◌, ◌||◌, Option, none, some, leb, if◌then◌else◌, ◌==◌,
}
use fine_tune_harness.Base.Int.{ℤ, pos, negsuc}
use fine_tune_harness.Base.Text.{codes, is_blank}
use fine_tune_harness.Effects.{Result, return, raise, value_error}
use fine_tune_harness.State.Value.{
  Value, null, bool, int, float, str, list, dict, Fields, end, field, Float, finite, float_lt, get,
  get_or, has, truthy, is_null,
}

-- `if not test: raise ValueError(…)`, then the rest.
unfoldable pub guard : Bool → Result (Unit {0}) → Result (Unit {0})
guard true rest = rest
guard false rest = raise value_error

-- One check, then the other.
unfoldable pub in_turn : Result (Unit {0}) → Result (Unit {0}) → Result (Unit {0})
in_turn (return _) next = next
in_turn (raise e) next = raise e

unfoldable pub is_non_empty_text : Value → Bool
is_non_empty_text (str s) = not (s == "")
is_non_empty_text _ = false

-- `isinstance(v, str) and v.strip()`
unfoldable pub is_hash_text : Value → Bool
unfolding is_blank
is_hash_text (str s) = not (is_blank (codes s))
is_hash_text _ = false

unfoldable pub is_mode : Value → Bool
is_mode (str s) = s == "sequential" || s == "resource_aware"
is_mode _ = false

-- A number that is no bool and for which `val < 0` does not hold, as for NaN.
unfoldable pub is_non_negative : Value → Bool
is_non_negative (int (pos n)) = true
is_non_negative (float f) = not (float_lt f (finite (pos 0) 0))
is_non_negative _ = false

unfoldable pub is_int_from : ℕ → Value → Bool
is_int_from low (int (pos n)) = leb low n
is_int_from low _ = false

unfoldable pub if_present : (Value → Bool) → String → Fields → Bool
if_present test key fields = elim (get key fields) [ none ↦ true | some v ↦ test v ]

unfoldable pub validate_concurrency : Value → Result (Unit {0})
unfolding guard is_mode is_non_negative is_int_from if_present
validate_concurrency (dict conc) = guard (is_mode (get_or "mode" (str "sequential") conc)) (
    guard (if_present is_non_negative "min_free_mb" conc) (
      guard (if_present is_non_negative "settle_seconds" conc) (
        guard (if_present (is_int_from 1) "max_concurrent" conc)
          (guard (if_present (is_int_from 0) "max_oom_retries" conc) (return tt)))))
validate_concurrency _ = raise value_error

unfoldable pub is_seed : Value → Bool
is_seed (int n) = true
is_seed _ = false

unfoldable pub validate_seed : Fields → Result (Unit {0})
unfolding guard is_seed
validate_seed config = guard (is_seed (get_or "seed" null config)) (return tt)

unfoldable pub all_hash_texts : Fields → Bool
unfolding is_hash_text
all_hash_texts end = true
all_hash_texts (field k v rest) = is_hash_text v && all_hash_texts rest

unfoldable pub validate_datasets : Value → Result (Unit {0})
unfolding guard all_hash_texts
validate_datasets null = return tt
validate_datasets (dict end) = raise value_error
validate_datasets (dict (field k v rest)) = guard (all_hash_texts (field k v rest)) (return tt)
validate_datasets _ = raise value_error

unfoldable pub validate_dataset_hash : Fields → Result (Unit {0})
unfolding guard is_hash_text validate_datasets
validate_dataset_hash config =
    let dataset_hash = get_or "dataset_hash" null config in
    let datasets = get_or "datasets" null config in
    guard (not (is_null dataset_hash && not (truthy datasets)))
      (guard (is_null dataset_hash || is_hash_text dataset_hash) (validate_datasets datasets))

unfoldable pub validate_reproducibility : Fields → Result (Unit {0})
unfolding in_turn validate_seed validate_dataset_hash
validate_reproducibility config = in_turn (validate_seed config) (validate_dataset_hash config)

unfoldable pub validate_artifacts : Value → Result (Unit {0})
unfolding guard is_non_empty_text
validate_artifacts (dict artifacts) =
    guard (is_non_empty_text (get_or "root" null artifacts)) (return tt)
validate_artifacts _ = raise value_error

unfoldable pub validate_executor : Value → Result (Unit {0})
unfolding validate_concurrency
validate_executor (dict executor) = elim (get "concurrency" executor) [
  | none ↦ return tt
  | some conc ↦ validate_concurrency conc
]
validate_executor _ = raise value_error

unfoldable pub validate_project : Value → Result (Unit {0})
unfolding guard is_non_empty_text
validate_project (dict project) = guard (is_non_empty_text (get_or "name" null project)) (return tt)
validate_project _ = raise value_error

unfoldable pub validate_run_config : Value → Result (Unit {0})
unfolding guard in_turn validate_project validate_executor validate_artifacts
    validate_reproducibility
validate_run_config (dict config) =
    guard (has "project" config && (has "executor" config && has "artifacts" config)) (
      in_turn (validate_project (get_or "project" null config)) (
        in_turn (validate_executor (get_or "executor" null config)) (
          in_turn (validate_artifacts (get_or "artifacts" null config))
            (validate_reproducibility config))))
validate_run_config _ = raise value_error
