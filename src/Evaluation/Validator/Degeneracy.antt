-- ===== src/Evaluation/Validator/Degeneracy.antt =====
-- The checks of degeneracy in validate_result (evaluation/validator.py) when none finds a reason.
use fine_tune_harness.Base.{
  String, Bool, true, false, not, ◌&&◌, Option, none, some, List, [], ◌∷◌, ◌++◌, ◌≡◌, ◌≢◌, refl,
  ◌⊎◌, inl, inr, arith, Bool-cases, Option-cases,
}
use fine_tune_harness.State.Value.{
  Value, null, bool, Fields, Float, get_or, truthy, is_zero, float_lt, float_le,
}
use fine_tune_harness.Evaluation.Validator.{
  Message, bounded_metrics, zero_float, when, number_at, test_at, is_false, degeneracy_reasons,
  bounded_vals, all_zero, is_empty, more_trainable,
}

pub append-nil_parts : {A : Type 0} (xs ys : List A) → xs ++ ys ≡ [] → (xs ≡ []) × (ys ≡ [])
append-nil_parts [] ys h = (refl, h)
append-nil_parts (x ∷ xs) ys h = cc

pub when-nil : (b : Bool) (m : Message) → when b m ≡ [] → b ≡ false
unfolding when
when-nil b m h = ground arith

pub unless_true : {P : Type 0} (b : Bool) → (b ≡ false → P) → (b ≡ true) ⊎ P
unless_true true p = inl refl
unless_true false p = inr (p refl)

-- None of the keys has a number.
abbrev pub AllAbsent : List String → Fields → Type 0
AllAbsent [] result = Unit
AllAbsent (k ∷ ks) result = (number_at k result ≡ none) × AllAbsent ks result

-- One of the keys has a number that is not zero.
abbrev pub SomeNonZero : List String → Fields → Type 0
SomeNonZero [] result = ⊥
SomeNonZero (k ∷ ks) result =
    ((v : Float) × (number_at k result ≡ some v) × (is_zero v ≡ false)) ⊎ SomeNonZero ks result

cons-nil : {x : Float} {xs : List Float} → ◌≡◌ {A = List Float} (x ∷ xs) [] → ⊥
cons-nil e = cc

-- What an accepted result satisfies besides its metrics. `adapter` says whether the method is one
-- of the adapter methods.
pub record IsTrustworthy (adapter : Bool) (result : Fields) : Type 0 where
  pub nothing_caught : truthy (get_or "caught_exception" null result) ≡ false
  pub evaluated :
      (n : Float) → number_at "eval_examples" result ≡ some n → float_le n zero_float ≡ false
  pub has_predictions : get_or "predictions_non_empty" null result ≢ bool false
  pub adapter_loaded : get_or "adapter_loaded" null result ≢ bool false
  pub trains :
      adapter ≡ true
      → (n : Float) → number_at "trainable_params" result ≡ some n
      → is_zero n ≡ false
  pub trains_within :
      (n total : Float)
      → number_at "trainable_params" result ≡ some n
      → number_at "total_params" result ≡ some total
      → float_lt total n ≡ false
  pub not_all_zero :
      (truthy (get_or "all_zeros_expected" null result) ≡ true)
      ⊎ (AllAbsent bounded_metrics result ⊎ SomeNonZero bounded_metrics result)

pub test_at-false :
    (test : Float → Bool) (o : Option Float)
    → test_at test o ≡ false
    → (n : Float) → o ≡ some n
    → test n ≡ false
unfolding test_at
test_at-false test o h n e = rw (e, test_at) at h

pub is_false-lem : (v : Value) → is_false v ≡ false → v ≢ bool false
unfolding is_false
is_false-lem v h e = absurd (ground (arith, h, e))

pub more_trainable-lem :
    (a b : Option Float)
    → more_trainable a b ≡ false
    → (n total : Float) → a ≡ some n
    → b ≡ some total
    → float_lt total n ≡ false
unfolding more_trainable
more_trainable-lem a b h n total e f = rw (e, f, more_trainable) at h

pub AllAbsent-lem :
    (ks : List String) (result : Fields) → bounded_vals ks result ≡ [] → AllAbsent ks result
unfolding bounded_vals
AllAbsent-lem [] result h = tt
AllAbsent-lem (k ∷ ks) result h = elim (Option-cases (number_at k result)) [
  | inl absent ↦ (absent, AllAbsent-lem ks result (rw (absent, bounded_vals) at h))
  | inr (v, there) ↦ absurd (cons-nil (rw (there, bounded_vals) at h))
]

pub SomeNonZero-lem :
    (ks : List String) (result : Fields)
    → all_zero (bounded_vals ks result) ≡ false
    → SomeNonZero ks result
unfolding bounded_vals all_zero
SomeNonZero-lem [] result h = absurd (ground arith)
SomeNonZero-lem (k ∷ ks) result h = elim (Option-cases (number_at k result)) [
  | inl absent ↦ inr (SomeNonZero-lem ks result (rw (absent, bounded_vals) at h))
  | inr (v, there) ↦ elim (Bool-cases (is_zero v)) [
    | inl zero ↦ inr (SomeNonZero-lem ks result (rw (there, zero, bounded_vals, all_zero) at h))
    | inr other ↦ inl (v, there, other)
  ]
]

pub reasons-nil :
    (adapter : Bool) (result : Fields)
    → degeneracy_reasons adapter result ≡ []
    → (is_false (get_or "predictions_non_empty" null result) ≡ false)
      × (is_false (get_or "adapter_loaded" null result) ≡ false)
      × (adapter && test_at is_zero (number_at "trainable_params" result) ≡ false)
      × (more_trainable (number_at "trainable_params" result) (number_at "total_params" result)
          ≡ false)
      × (not (is_empty (bounded_vals bounded_metrics result))
            && (all_zero (bounded_vals bounded_metrics result)
                && not (truthy (get_or "all_zeros_expected" null result)))
          ≡ false)
unfolding degeneracy_reasons
reasons-nil adapter result h =
    let (a, rest₁) = append-nil_parts _ _ h in
    let (b, rest₂) = append-nil_parts _ _ rest₁ in
    let (c, rest₃) = append-nil_parts _ _ rest₂ in
    let (d, e) = append-nil_parts _ _ rest₃ in
    (when-nil _ _ a, when-nil _ _ b, when-nil _ _ c, when-nil _ _ d, when-nil _ _ e)

pub empty-lem :
    (vs : List Float) (zero expected : Bool)
    → not (is_empty vs) && (zero && not expected) ≡ false
    → expected ≡ false
    → (vs ≡ []) ⊎ (zero ≡ false)
unfolding is_empty
empty-lem [] zero expected h e = inl refl
empty-lem (v ∷ vs) zero expected h e = inr (ground arith)
