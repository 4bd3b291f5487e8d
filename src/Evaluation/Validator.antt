-- ===== src/Evaluation/Validator.antt =====
-- evaluation/validator.py: is the result of a handler trustworthy? A message is a constructor; its
-- formatted text is not modelled.
pub mod Degeneracy
pub mod Soundness
use fine_tune_harness.Base.{
  ℕ, ◌+◌, ◌-◌, ◌^◌, ◌≤◌, String, Bool, true, false, not, ◌&&◌, ◌||◌, Option, none, some, List, [],
  ◌∷◌, ◌++◌, leb, if◌then◌else◌, ◌==◌,
}
use fine_tune_harness.Base.Int.{ℤ, pos, pos_part, neg_part}
use fine_tune_harness.Base.Text.{codes, lower, codes_eq}
use fine_tune_harness.Effects.{Result, return, raise, overflow_error, attribute_error}
use fine_tune_harness.State.Value.{
  Value, null, bool, int, float, str, dict, Fields, end, field, Items, nil, cons, Float, nan, inf,
  finite, get, has, get_or, number, or_else, truthy, is_zero, is_nan, is_inf, float_lt, float_le,
}

pub data ResultStatus : Type 0 where
  succeeded_validated succeeded_with_warnings failed_validation degenerate_result : ResultStatus
  failed_runtime : ResultStatus

pub data Message : Type 0 where
  not_a_dict caught_exception zero_examples : Message
  metric_nan metric_inf out_of_range negative_loss : String → Message
  predictions_empty adapter_not_loaded no_trainable_params too_many_trainable : Message
  all_bounded_zero predictions_constant : Message

pub record ValidationOutcome : Type 0 where
  pub status : ResultStatus
  pub poor_performance : Option Bool
  pub metric_validated : Bool
  pub degeneracy_flag : Bool
  pub validation_errors : List Message
  pub validation_warnings : List Message

-- `key in set`
unfoldable pub text_in : String → List String → Bool
text_in k [] = false
text_in k (j ∷ js) = k == j || text_in k js

unfoldable pub lower_in : String → List String → Bool
unfolding codes lower codes_eq
lower_in k [] = false
lower_in k (j ∷ js) = codes_eq (lower k) (codes j) || lower_in k js

abbrev pub adapter_methods : List String
adapter_methods = "lora" ∷ "adalora" ∷ "ia3" ∷ "prefix" ∷ "prompt" ∷ "adapter" ∷ []

abbrev pub bounded_metrics : List String
bounded_metrics =
    "accuracy" ∷ "f1" ∷ "f1_macro" ∷ "f1_micro" ∷ "f1_weighted" ∷ "precision" ∷ "recall" ∷ "auc"
    ∷ "roc_auc" ∷ "balanced_accuracy" ∷ []

abbrev pub non_negative_metrics : List String
non_negative_metrics = "loss" ∷ "loss_start" ∷ "loss_end" ∷ "val_loss" ∷ []

abbrev pub zero_float : Float
zero_float = finite (pos 0) 0

abbrev pub one_float : Float
one_float = finite (pos 1) 0

-- The float literal 0.55.
abbrev pub poor_below : Float
poor_below = finite (pos 4953959590107546) 53

-- An int that is too large for a float: `float(v)` raises OverflowError.
unfoldable pub overflows : Value → Bool
overflows (int m) = leb (2 ^ 1024 - 2 ^ 970) (pos_part m + neg_part m)
overflows _ = false

-- The body of the loop over the items, for a number `v` under `key`.
unfoldable pub check_metric : String → Float → List Message
unfolding is_nan is_inf text_in float_le float_lt
check_metric key v =
    if is_nan v
    then metric_nan key ∷ []
    else if is_inf v
    then metric_inf key ∷ []
    else if text_in key bounded_metrics && not (float_le zero_float v && float_le v one_float)
    then out_of_range key ∷ []
    else if text_in key non_negative_metrics && float_lt v zero_float
    then negative_loss key ∷ []
    else []

unfoldable pub extend : List Message → Result (List Message) → Result (List Message)
extend ms (return more) = return (ms ++ more)
extend ms (raise e) = raise e

unfoldable pub check_metrics : Fields → Result (List Message)
unfolding check_metric number overflows extend
check_metrics end = return []
check_metrics (field key raw rest) =
    let others = check_metrics rest in
    elim (number raw) [
      | none ↦ others
      | some v ↦ if overflows raw then raise overflow_error else extend (check_metric key v) others
    ]

unfoldable pub when : Bool → Message → List Message
when b m = if b then m ∷ [] else []

-- `isinstance(v, (int, float)) and test(v)` for the value under a key that is present.
unfoldable pub number_at : String → Fields → Option Float
unfolding number get
number_at key result = elim (get key result) [ none ↦ none | some v ↦ number v ]

unfoldable pub test_at : (Float → Bool) → Option Float → Bool
test_at p none = false
test_at p (some v) = p v

unfoldable pub is_false : Value → Bool
is_false (bool false) = true
is_false _ = false

unfoldable pub is_true : Value → Bool
is_true (bool true) = true
is_true _ = false

-- `method or result.get("method") or result.get("technique")`
unfoldable pub effective_method : (method : Value) → Fields → Value
unfolding or_else get_or
effective_method method result =
    or_else (or_else method (get_or "method" null result)) (get_or "technique" null result)

-- `effective_method is not None and effective_method.lower() in _ADAPTER_METHODS`
unfoldable pub is_adapter_method : Value → Result Bool
unfolding lower_in
is_adapter_method null = return false
is_adapter_method (str name) = return (lower_in name adapter_methods)
is_adapter_method _ = raise attribute_error

unfoldable pub more_trainable : Option Float → Option Float → Bool
unfolding float_lt
more_trainable (some tp) (some tot) = float_lt tot tp
more_trainable _ _ = false

-- The numbers among the bounded metrics of the result.
unfoldable pub bounded_vals : List String → Fields → List Float
unfolding number_at
bounded_vals [] result = []
bounded_vals (k ∷ ks) result =
    let rest = bounded_vals ks result in
    elim (number_at k result) [ none ↦ rest | some v ↦ v ∷ rest ]

unfoldable pub all_zero : List Float → Bool
unfolding is_zero
all_zero [] = true
all_zero (v ∷ vs) = is_zero v && all_zero vs

unfoldable pub is_empty : List Float → Bool
is_empty [] = true
is_empty (_ ∷ _) = false

unfoldable pub degeneracy_reasons : (is_adapter : Bool) → Fields → List Message
unfolding when number_at test_at is_false more_trainable bounded_vals all_zero is_empty truthy
    get_or
degeneracy_reasons is_adapter result =
    when (is_false (get_or "predictions_non_empty" null result)) predictions_empty
    ++ (when (is_false (get_or "adapter_loaded" null result)) adapter_not_loaded
        ++ (when (is_adapter && test_at is_zero (number_at "trainable_params" result))
              no_trainable_params
            ++ (when
                  (more_trainable (number_at "trainable_params" result)
                    (number_at "total_params" result))
                  too_many_trainable
                ++ when
                    (not (is_empty (bounded_vals bounded_metrics result))
                      && (all_zero (bounded_vals bounded_metrics result)
                          && not (truthy (get_or "all_zeros_expected" null result))))
                    all_bounded_zero)))

-- Python's `max`: a later number replaces the best only if it is greater.
unfoldable pub max_from : Option Float → List Float → Option Float
unfolding float_lt
max_from best [] = best
max_from none (v ∷ vs) = max_from (some v) vs
max_from (some best) (v ∷ vs) = max_from (some (if float_lt best v then v else best)) vs

unfoldable pub poor_performance_of : Fields → Option Bool
unfolding max_from bounded_vals is_nan is_inf float_lt
poor_performance_of result =
    elim (max_from none (bounded_vals ("accuracy" ∷ "f1" ∷ "auc" ∷ "roc_auc" ∷ []) result)) [
      | none ↦ none
      | some top ↦ if is_nan top || is_inf top then none else some (float_lt top poor_below)
    ]

unfoldable pub final_status :
    (errors reasons warnings : List Message) (poor : Option Bool) → ValidationOutcome
final_status (e ∷ es) reasons warnings poor = record {
  status = failed_validation;
  poor_performance = poor;
  metric_validated = false;
  degeneracy_flag = false;
  validation_errors = e ∷ es;
  validation_warnings = warnings;
}
final_status [] (r ∷ rs) warnings poor = record {
  status = degenerate_result;
  poor_performance = poor;
  metric_validated = false;
  degeneracy_flag = true;
  validation_errors = r ∷ rs;
  validation_warnings = warnings;
}
final_status [] [] (m ∷ ms) poor = record {
  status = succeeded_with_warnings;
  poor_performance = poor;
  metric_validated = true;
  degeneracy_flag = false;
  validation_errors = [];
  validation_warnings = m ∷ ms;
}
final_status [] [] [] poor = record {
  status = succeeded_validated;
  poor_performance = poor;
  metric_validated = true;
  degeneracy_flag = false;
  validation_errors = [];
  validation_warnings = [];
}

unfoldable pub judge : List Message → Result Bool → Fields → Result ValidationOutcome
unfolding final_status degeneracy_reasons poor_performance_of when is_true get_or
judge errors (raise e) result = raise e
judge errors (return is_adapter) result = return (
    final_status errors (degeneracy_reasons is_adapter result)
      (when (is_true (get_or "predictions_constant" null result)) predictions_constant)
      (poor_performance_of result))

unfoldable pub validate_dict : (method : Value) → Fields → Result ValidationOutcome
unfolding check_metrics judge effective_method is_adapter_method when number_at test_at truthy
    get_or float_le
validate_dict method result = elim (check_metrics result) [
  | raise e ↦ raise e
  | return metric_errors ↦
      let errors =
        when (truthy (get_or "caught_exception" null result)) caught_exception
        ++ (metric_errors
            ++ when (test_at (λ n. float_le n zero_float) (number_at "eval_examples" result))
                zero_examples) in
      judge errors (is_adapter_method (effective_method method result)) result
]

unfoldable pub validate_result : (method : Value) → Value → Result ValidationOutcome
unfolding validate_dict
validate_result method (dict result) = validate_dict method result
validate_result method _ = return (record {
  status = failed_validation;
  poor_performance = none;
  metric_validated = false;
  degeneracy_flag = false;
  validation_errors = not_a_dict ∷ [];
  validation_warnings = [];
})
