-- ===== src/Evaluation/Comparator.antt =====
-- evaluation/comparator.py: the comparison of runs. This file: when runs are comparable, and the tests
-- on one metric and on one result. The text of an issue is not modelled.
pub mod Tasks
pub mod Snapshots
pub mod Reports
pub mod Verdicts
pub mod Exclusions
use fine_tune_harness.Base.{
  ℕ, ◌+◌, String, Bool, true, false, not, ◌&&◌, ◌||◌, Option, none, some, List, [], ◌∷◌, ◌++◌,
  nat_eq, if◌then◌else◌, ◌==◌, Dict, lookup,
}
use fine_tune_harness.Base.Int.{pos}
use fine_tune_harness.Effects.{Result, return, raise}
use fine_tune_harness.State.Value.{
  Value, null, bool, int, float, str, list, dict, Items, nil, cons, Fields, end, field, Float,
  finite, get, get_or, is_null, truthy, number, float_le, float_lt,
}
use fine_tune_harness.State.Models.{RunRecord}
use fine_tune_harness.Evaluation.Validator.{
  ResultStatus, degenerate_result, failed_validation, Message, ValidationOutcome, text_in,
  validate_result,
}
use fine_tune_harness.Evaluation.Floats.{negate, is_finite, float_of}

-- `a == b` on values. Numbers are equal by value, dictionaries whatever their order.
unfoldable pub number_eq : Option Float → Option Float → Bool
unfolding float_le
number_eq (some x) (some y) = float_le x y && float_le y x
number_eq _ _ = false

unfoldable pub count_fields : Fields → ℕ
count_fields end = 0
count_fields (field _ _ fs) = 1 + count_fields fs

unfoldable mutual
  unfolding number_eq number get count_fields

  pub value_eq : Value → Value → Bool
  value_eq null w = is_null w
  value_eq (str s) w = elim w [ str t ↦ s == t | _ ↦ false ]
  value_eq (list vs) w = elim w [ list ws ↦ items_eq vs ws | _ ↦ false ]
  value_eq (dict fs) w = elim w [
    | dict gs ↦ nat_eq (count_fields fs) (count_fields gs) && fields_in fs gs
    | _ ↦ false
  ]
  value_eq (bool b) w = number_eq (number (bool b)) (number w)
  value_eq (int m) w = number_eq (number (int m)) (number w)
  value_eq (float x) w = number_eq (number (float x)) (number w)

  pub items_eq : Items → Items → Bool
  items_eq nil ws = elim ws [ nil ↦ true | cons _ _ ↦ false ]
  items_eq (cons v vs) ws = elim ws [ nil ↦ false | cons w rest ↦ value_eq v w && items_eq vs rest ]

  -- Each item of the first is one of the second.
  pub fields_in : Fields → Fields → Bool
  fields_in end gs = true
  fields_in (field k v fs) gs =
      elim (get k gs) [ none ↦ false | some w ↦ value_eq v w ] && fields_in fs gs

pub data Severity : Type 0 where
  error warning : Severity

pub record ComparabilityIssue : Type 0 where
  pub severity : Severity
  pub field_name : String
  pub baseline_value : Value
  pub compare_value : Value

unfoldable pub is_error : ComparabilityIssue → Bool
is_error issue = elim issue.severity [ error ↦ true | warning ↦ false ]

-- `a is not None and b is not None and a != b`
unfoldable pub warn_if_differs : String → (a b : Value) → List ComparabilityIssue
unfolding value_eq
warn_if_differs name a b =
    if not (is_null a) && (not (is_null b) && not (value_eq a b))
    then record { severity = warning; field_name = name; baseline_value = a; compare_value = b }
      ∷ []
    else []

-- `config.get(key)` and the name of the issue.
unfoldable pub check_config : (name key : String) → RunRecord → RunRecord → List ComparabilityIssue
unfolding warn_if_differs get_or
check_config name key run_a run_b =
    warn_if_differs name (get_or key null run_a.config) (get_or key null run_b.config)

unfoldable pub check_hashes : RunRecord → RunRecord → List ComparabilityIssue
unfolding truthy value_eq
check_hashes run_a run_b =
    let a = dict run_a.dataset_hashes in
    let b = dict run_b.dataset_hashes in
    if truthy a && (truthy b && not (value_eq a b))
    then record {
      severity = error;
      field_name = "dataset_hashes";
      baseline_value = a;
      compare_value = b;
    }
      ∷ []
    else []

-- The configuration keys are in their sorted order.
unfoldable pub check_comparability : RunRecord → RunRecord → List ComparabilityIssue
unfolding check_hashes check_config warn_if_differs get_or
check_comparability run_a run_b =
    check_hashes run_a run_b
    ++ check_config "seed" "seed" run_a run_b
    ++ warn_if_differs "git_commit" (get_or "git_commit" null run_a.env_snapshot)
        (get_or "git_commit" null run_b.env_snapshot)
    ++ check_config "config.max_length" "max_length" run_a run_b
    ++ check_config "config.model_name" "model_name" run_a run_b
    ++ check_config "config.model_type" "model_type" run_a run_b
    ++ check_config "config.num_labels" "num_labels" run_a run_b
    ++ check_config "config.tokenizer_type" "tokenizer_type" run_a run_b
    ++ check_config "config.vocab_size" "vocab_size" run_a run_b

abbrev pub MetricThresholds : Type 0
MetricThresholds = Dict Float

-- The float literals 0.02, 0.03 and 0.05.
abbrev two_hundredths : Float
two_hundredths = finite (pos 5764607523034235) 58

abbrev three_hundredths : Float
three_hundredths = finite (pos 8646911284551352) 58

abbrev five_hundredths : Float
five_hundredths = finite (pos 7205759403792794) 57

abbrev pub default_thresholds : MetricThresholds
default_thresholds =
    ("accuracy", two_hundredths)
    ∷ ("f1", two_hundredths)
    ∷ ("f1_macro", two_hundredths)
    ∷ ("f1_micro", two_hundredths)
    ∷ ("f1_weighted", two_hundredths)
    ∷ ("precision", three_hundredths)
    ∷ ("recall", three_hundredths)
    ∷ ("auc", two_hundredths)
    ∷ ("roc_auc", two_hundredths)
    ∷ ("balanced_accuracy", two_hundredths)
    ∷ ("loss", five_hundredths)
    ∷ ("val_loss", five_hundredths)
    ∷ []

abbrev pub lower_is_better : List String
lower_is_better = "loss" ∷ "val_loss" ∷ "loss_start" ∷ "loss_end" ∷ []

unfoldable pub is_metric_regression : String → (delta : Float) → MetricThresholds → Bool
unfolding float_lt negate text_in
is_metric_regression metric_key delta thresholds = elim (lookup metric_key thresholds) [
  | none ↦ false
  | some threshold ↦
      if text_in metric_key lower_is_better
      then float_lt threshold delta
      else float_lt delta (negate threshold)
]

-- Adds a metric if its number is finite.
unfoldable pub add_metric : String → Result Float → Result (Dict Float) → Result (Dict Float)
unfolding is_finite
add_metric k (raise e) rest = raise e
add_metric k (return v) (raise e) = raise e
add_metric k (return v) (return rest) = return (if is_finite v then (k, v) ∷ rest else rest)

-- The items of the result whose value is a finite number.
unfoldable pub metrics_in : Fields → Result (Dict Float)
unfolding float_of add_metric
metrics_in end = return []
metrics_in (field k v fs) =
    let rest = metrics_in fs in
    elim (float_of v) [ none ↦ rest | some number ↦ add_metric k number rest ]

unfoldable pub numeric_metrics : Option Fields → Result (Dict Float)
unfolding metrics_in
numeric_metrics none = return []
numeric_metrics (some result) = metrics_in result

-- `errors[:3]`
unfoldable pub first_three : List Message → List Message
first_three (a ∷ b ∷ c ∷ _) = a ∷ b ∷ c ∷ []
first_three [] = []
first_three (a ∷ []) = a ∷ []
first_three (a ∷ b ∷ []) = a ∷ b ∷ []

-- Why a result is left out.
pub data Reason : Type 0 where
  result_is_none : Reason
  rejected : ResultStatus → List Message → Reason

-- `none` is `(True, "")`.
unfoldable pub reason_of : ValidationOutcome → Option Reason
unfolding first_three
reason_of outcome = elim outcome.status [
  | degenerate_result ↦ some (rejected degenerate_result (first_three outcome.validation_errors))
  | failed_validation ↦ some (rejected failed_validation (first_three outcome.validation_errors))
  | _ ↦ none
]

unfoldable pub reason_given : Result ValidationOutcome → Result (Option Reason)
unfolding reason_of
reason_given (raise e) = raise e
reason_given (return outcome) = return (reason_of outcome)

unfoldable pub result_is_valid_for_comparison : Option Fields → Result (Option Reason)
unfolding reason_given validate_result
result_is_valid_for_comparison none = return (some result_is_none)
result_is_valid_for_comparison (some result) = reason_given (validate_result null (dict result))
