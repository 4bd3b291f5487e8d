-- ===== src/Evaluation/Validator/Soundness.antt =====
-- What a result that validate_result accepts satisfies (evaluation/validator.py).
use fine_tune_harness.Base.{
  String, Bool, true, false, Option, none, some, List, [], ◌∷◌, ◌++◌, ◌≡◌, refl, sym, ap, ◌∙◌, ◌⊎◌,
  inl, inr, arith, Bool-cases, Option-cases,
}
use mathlib.Core.Option.{some-injective}
use fine_tune_harness.Effects.{raise-return, return-injective, Result, return, raise, Exception}
use fine_tune_harness.State.Value.{
  Value, null, dict, Fields, end, field, Float, number, get_or, truthy, is_nan, is_inf, float_lt,
  float_le,
}
use fine_tune_harness.Evaluation.Validator.{
  Message, ValidationOutcome, text_in, bounded_metrics, non_negative_metrics, zero_float, one_float,
  overflows, check_metric, check_metrics, extend, when, number_at, test_at, degeneracy_reasons,
  final_status, judge, validate_dict, validate_result, effective_method, is_adapter_method,
}
use fine_tune_harness.Evaluation.Validator.Degeneracy.{
  IsTrustworthy, append-nil_parts, when-nil, unless_true, test_at-false, is_false-lem,
  more_trainable-lem, AllAbsent-lem, SomeNonZero-lem, reasons-nil, empty-lem,
}

-- `(key, value)` is an item of the dictionary.
abbrev pub Item : String → Value → Fields → Type 0
Item k v end = ⊥
Item k v (field j w rest) = ((j ≡ k) × (w ≡ v)) ⊎ Item k v rest

-- A metric that may be compared: finite, and in the range that its name calls for.
pub record IsSound (key : String) (v : Float) : Type 0 where
  pub not_nan : is_nan v ≡ false
  pub not_inf : is_inf v ≡ false
  pub in_unit :
      (text_in key bounded_metrics ≡ false)
      ⊎ ((float_le zero_float v ≡ true) × (float_le v one_float ≡ true))
  pub not_negative :
      (text_in key non_negative_metrics ≡ false)
      ⊎ ((text_in key bounded_metrics ≡ true) ⊎ (float_lt v zero_float ≡ false))

some-none {ℓ} : {A : Type ℓ} {o : Option A} {a : A} → o ≡ none → o ≡ some a → ⊥
some-none e f = cc

unless_false : {P : Type 0} (b : Bool) → (b ≡ true → P) → (b ≡ false) ⊎ P
unless_false true p = inr (p refl)
unless_false false p = inl refl

check_metric-IsSound : (key : String) (v : Float) → check_metric key v ≡ [] → IsSound key v
unfolding check_metric
check_metric-IsSound key v h = record {
  not_nan = ground arith;
  not_inf = ground arith;
  in_unit = unless_false (text_in key bounded_metrics) λ bounded. ground arith;
  not_negative =
      unless_false (text_in key non_negative_metrics)
        λ loss. unless_true (text_in key bounded_metrics) λ unbounded. ground arith;
}

extend-nil :
    (ms : List Message) (r : Result (List Message))
    → extend ms r ≡ return []
    → (ms ≡ []) × (r ≡ return [])
unfolding extend
extend-nil [] (return more) h = (refl, h)
extend-nil (m ∷ ms) (return more) h = cc
extend-nil ms (raise e) h = cc

check_metrics-parts :
    (j : String) (w : Value) (rest : Fields)
    → check_metrics (field j w rest) ≡ return []
    → (check_metrics rest ≡ return []) × ((v : Float) → number w ≡ some v → check_metric j v ≡ [])
unfolding check_metrics
check_metrics-parts j w rest h = elim (Option-cases (number w)) [
  | inl other ↦ (rw (other, check_metrics) at h, λ v e. absurd (some-none other e))
  | inr (u, is_number) ↦ elim (Bool-cases (overflows w)) [
    | inl big ↦ absurd (raise-return (rw (is_number, big, check_metrics) at h))
    | inr fits ↦
        let (none_here, none_later) =
          extend-nil (check_metric j u) (check_metrics rest)
            (rw (is_number, fits, check_metrics) at h) in
        (none_later, λ v e. rw (← some-injective u v (sym is_number ∙ e)) none_here)
  ]
]

check_metrics-IsSound :
    (result : Fields)
    → check_metrics result ≡ return []
    → (key : String) (raw : Value) (v : Float) → Item key raw result
    → number raw ≡ some v
    → IsSound key v
unfolding check_metrics
check_metrics-IsSound end h key raw v item as_number = absurd item
check_metrics-IsSound (field j w rest) h key raw v (inl (at, same)) as_number =
    rw (← at)
      (check_metric-IsSound j v ((check_metrics-parts j w rest h).1 v (ap number same ∙ as_number)))
check_metrics-IsSound (field j w rest) h key raw v (inr item) as_number =
    check_metrics-IsSound rest (check_metrics-parts j w rest h).0 key raw v item as_number

final_status-validated :
    (errors reasons warnings : List Message) (poor : Option Bool)
    → (final_status errors reasons warnings poor).metric_validated ≡ true
    → (errors ≡ []) × (reasons ≡ [])
unfolding final_status
final_status-validated (e ∷ es) reasons warnings poor h = cc
final_status-validated [] (r ∷ rs) warnings poor h = cc
final_status-validated [] [] (m ∷ ms) poor h = (refl, refl)
final_status-validated [] [] [] poor h = (refl, refl)

Result-cases :
    {A : Type 0} (r : Result A) → ((a : A) × (r ≡ return a)) ⊎ ((e : Exception) × (r ≡ raise e))
Result-cases (return a) = inl (a, refl)
Result-cases (raise e) = inr (e, refl)

-- The verdict as `final_status` over what the checks found.
abbrev Verdict : (method : Value) → Fields → ValidationOutcome → Type 0
Verdict method result o =
    (metric_errors : List Message) × (adapter : Bool) × (check_metrics result
      ≡ return metric_errors)
    × (is_adapter_method (effective_method method result) ≡ return adapter)
    × ((warnings : List Message) × (poor : Option Bool) × (o
          ≡ final_status
              (when (truthy (get_or "caught_exception" null result)) Message.caught_exception
                ++ (metric_errors
                    ++ when
                        (test_at (λ n. float_le n zero_float) (number_at "eval_examples" result))
                        Message.zero_examples))
              (degeneracy_reasons adapter result) warnings poor))

validate_dict-Verdict :
    (method : Value) (result : Fields) (o : ValidationOutcome)
    → validate_dict method result ≡ return o
    → Verdict method result o
unfolding validate_dict judge
validate_dict-Verdict method result o h = elim (Result-cases (check_metrics result)) [
  | inl (metric_errors, checked) ↦
      elim (Result-cases (is_adapter_method (effective_method method result))) [
        | inl (adapter, known) ↦ (
          metric_errors,
          adapter,
          checked,
          known,
          (_, _, sym (return-injective (rw (checked, known, validate_dict, judge) at h))),
        )
        | inr (e, failed) ↦ absurd (raise-return (rw (checked, failed, validate_dict, judge) at h))
      ]
  | inr (e, failed) ↦ absurd (raise-return (rw (failed, validate_dict) at h))
]

-- A dictionary that validate_result accepts, with or without warnings, is trustworthy: every number
-- in it is finite and in the range that its key calls for; it reports no caught exception, no
-- evaluation over zero examples, no empty predictions and no adapter that was not loaded; under an
-- adapter method it does not report zero trainable parameters; it does not report more trainable
-- than total parameters; and its bounded metrics, if it has any, are not all zero unless that was
-- expected.
pub validate_result-IsSound :
    (method : Value) (result : Fields) (o : ValidationOutcome)
    → validate_result method (dict result) ≡ return o
    → o.metric_validated ≡ true
    → ((key : String) (raw : Value) (v : Float)
        → Item key raw result
        → number raw ≡ some v
        → IsSound key v)
      × ((adapter : Bool) × (is_adapter_method (effective_method method result) ≡ return adapter)
          × IsTrustworthy adapter result)
unfolding validate_result
validate_result-IsSound method result o h accepted =
    let (metric_errors, adapter, checked, known, (warnings, poor, verdict)) =
      validate_dict-Verdict method result o h in
    let (no_errors, no_reasons) =
      final_status-validated _ _ warnings poor (rw verdict at accepted) in
    let (caught, rest) = append-nil_parts _ _ no_errors in
    let (no_metric_errors, examples) = append-nil_parts metric_errors _ rest in
    let (predictions, loaded, trained, within, zeros) = reasons-nil adapter result no_reasons in
    (
      check_metrics-IsSound result (checked ∙ ap return no_metric_errors),
      (
        adapter,
        known,
        record {
          nothing_caught = when-nil _ _ caught;
          evaluated = test_at-false _ _ (when-nil _ _ examples);
          has_predictions = is_false-lem _ predictions;
          adapter_loaded = is_false-lem _ loaded;
          trains = λ is_adapter. test_at-false _ _ (ground arith);
          trains_within = more_trainable-lem _ _ within;
          not_all_zero =
              unless_true (truthy (get_or "all_zeros_expected" null result)) λ unexpected.
                elim (empty-lem _ _ _ zeros unexpected) [
                  | inl none_there ↦ inl (AllAbsent-lem bounded_metrics result none_there)
                  | inr one_there ↦ inr (SomeNonZero-lem bounded_metrics result one_there)
                ];
        },
      ),
    )
