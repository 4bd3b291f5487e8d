-- ===== src/Effects.antt =====
-- Python statements that may raise, over a state that outlives an exception. The texts of the
-- messages that the program formats are not modelled: an exception of the harness is its class.
use fine_tune_harness.Base.{◌≡◌, refl, ◌⊎◌, inl, inr, ℕ, String, List}

pub data Exception : Type 0 where
  value_error key_error type_error attribute_error overflow_error : Exception
  timeout_error approval_error degenerate_result : Exception
  degraded_run : (failed_keys : List String) (succeeded : ℕ) → Exception
  raised : (class_name message : String) → Exception  -- any other class, from a handler or a hook

pub data Result {ℓ} (A : Type ℓ) : Type ℓ where
  return : A → Result A
  raise : Exception → Result A

abbrev pub Exec : Type 0 → Type 0 → Type 0
Exec S A = S → Result A × S

module _ {S : Type 0} where
  abbrev pub pure : {A : Type 0} → A → Exec S A
  pure a s = (return a, s)

  abbrev pub throw : {A : Type 0} → Exception → Exec S A
  throw e s = (raise e, s)

  abbrev pub gets : {A : Type 0} → (S → A) → Exec S A
  gets f s = (return (f s), s)

  -- A result that was computed without the state.
  unfoldable pub lift : {A : Type 0} → Result A → Exec S A
  lift r s = (r, s)

  abbrev pub and_then : {A B : Type 0} → Result A → (A → Exec S B) → Exec S B
  and_then (return a) f = f a
  and_then (raise e) f = throw e

  infixl 5 ◌>>=◌ ◌>>◌
  abbrev pub ◌>>=◌ : {A B : Type 0} → Exec S A → (A → Exec S B) → Exec S B
  m >>= f = λ s. let (r, s') = m s in and_then r f s'

  abbrev pub ◌>>◌ : {A B : Type 0} → Exec S A → Exec S B → Exec S B
  m >> n = m >>= λ _. n

-- The text `str(exc)` that the worker stores; a fixed text where the program formats one.
unfoldable pub message : Exception → String
message value_error = "ValueError"
message key_error = "KeyError"
message type_error = "TypeError"
message attribute_error = "AttributeError"
message overflow_error = "OverflowError"
message timeout_error = "task exceeded timeout"
message approval_error = "ApprovalError"
message degenerate_result = "result failed validation"
message (degraded_run _ _) = "tasks did not succeed"
message (raised _ text) = text

pub raise-return :
    {A : Type 0} {e : Exception} {a : A} → ◌≡◌ {A = Result A} (raise e) (return a) → ⊥
raise-return h = cc

pub return-injective : {A : Type 0} {a b : A} → ◌≡◌ {A = Result A} (return a) (return b) → a ≡ b
return-injective h = cc

pub Result-cases :
    {A : Type 0} (r : Result A) → ((e : Exception) × (r ≡ raise e)) ⊎ ((a : A) × (r ≡ return a))
Result-cases (raise e) = inl (e, refl)
Result-cases (return a) = inr (a, refl)
