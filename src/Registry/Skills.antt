-- ===== src/Registry/Skills.antt =====
-- registry/__init__.py: skills with the types of their inputs and outputs. `isinstance` is a test that
-- a schema carries; custom validators and handlers are code of the user.
use fine_tune_harness.Base.{
  String, Bool, true, Option, none, some, List, [], ◌∷◌, if◌then◌else◌, Dict, lookup, insert,
  has_key, ◌≡◌, refl, Bool-cases, Option-cases, inl, inr,
}
use mathlib.Core.Path.{subst}
use fine_tune_harness.Effects.{
  raise-return, return-injective, Result-cases, Result, return, raise, value_error, key_error,
  type_error,
}
use fine_tune_harness.State.Value.{Value, Fields, end, field, get, set}
use fine_tune_harness.State.Models.{TaskRecord}
use fine_tune_harness.Orchestrator.Hooks.{add_name}

-- The keys with the test of the type that is expected there.
abbrev pub Schema : Type 0
Schema = Dict (Value → Bool)

pub record SkillSpec (E : Type 0) : Type 0 where
  pub name : String
  pub description : String
  pub input_schema : Schema
  pub output_schema : Schema
  pub handler : TaskRecord → Fields → E → Result Fields × E
  pub validate_input : Option (Fields → Result (Unit {0}))
  pub validate_output : Option (Fields → Result (Unit {0}))

-- ValueError for the first key that is missing, TypeError for the first of another type.
unfoldable pub check_schema : Schema → Fields → Result (Unit {0})
check_schema [] payload = return tt
check_schema ((key, expected) ∷ rest) payload =
    let others = check_schema rest payload in
    elim (get key payload) [
      | none ↦ raise value_error
      | some v ↦ if expected v then others else raise type_error
    ]

unfoldable pub run_custom : Option (Fields → Result (Unit {0})) → Fields → Result (Unit {0})
run_custom none payload = return tt
run_custom (some validator) payload = validator payload

unfoldable pub check_all : Schema → Option (Fields → Result (Unit {0})) → Fields → Result (Unit {0})
unfolding check_schema run_custom
check_all schema custom payload = elim (check_schema schema payload) [
  | raise e ↦ raise e
  | return _ ↦ run_custom custom payload
]

-- `payload.update(kwargs)`
unfoldable pub update : Fields → Fields → Fields
update payload end = payload
update payload (field k v rest) = update (set k v payload) rest

module _ {E : Type 0} where
  unfoldable pub register : SkillSpec E → Dict (SkillSpec E) → Result (Dict (SkillSpec E))
  unfolding has_key insert
  register spec skills =
      if has_key spec.name skills then raise value_error else return (insert spec.name spec skills)

  unfoldable pub list_skills : Dict (SkillSpec E) → List String
  unfolding add_name
  list_skills [] = []
  list_skills ((name, _) ∷ rest) = add_name name (list_skills rest)

  unfoldable pub validate_input : Dict (SkillSpec E) → String → Fields → Result (Unit {0})
  unfolding check_all
  validate_input skills skill_name payload = elim (lookup skill_name skills) [
    | none ↦ raise key_error
    | some spec ↦ check_all spec.input_schema spec.validate_input payload
  ]

  unfoldable pub validate_output : Dict (SkillSpec E) → String → Fields → Result (Unit {0})
  unfolding check_all
  validate_output skills skill_name result = elim (lookup skill_name skills) [
    | none ↦ raise key_error
    | some spec ↦ check_all spec.output_schema spec.validate_output result
  ]

  -- The result of the handler, once its output has been checked.
  unfoldable pub checked_output : Dict (SkillSpec E) → String → Result Fields → Result Fields
  unfolding validate_output
  checked_output skills skill_name (raise e) = raise e
  checked_output skills skill_name (return result) =
      elim (validate_output skills skill_name result) [
        | raise e ↦ raise e
        | return _ ↦ return result
      ]

  unfoldable pub call_skill :
      Dict (SkillSpec E) → String → SkillSpec E → TaskRecord → Fields → E → Result Fields × E
  unfolding validate_input checked_output
  call_skill skills skill_name spec task payload x =
      let done = spec.handler task payload x in
      elim (validate_input skills skill_name payload) [
        | raise e ↦ (raise e, x)
        | return _ ↦ (checked_output skills skill_name done.0, done.1)
      ]

  unfoldable pub execute :
      Dict (SkillSpec E) → String → TaskRecord → (kwargs : Fields) → E → Result Fields × E
  unfolding call_skill update
  execute skills skill_name task kwargs x = elim (lookup skill_name skills) [
    | none ↦ (raise key_error, x)
    | some spec ↦ call_skill skills skill_name spec task (update task.payload kwargs) x
  ]

-- Every key of the schema is there, with a value of its type.
pub data Conforms (payload : Fields) : Schema → Type 0 where
  nil : Conforms payload []
  cons :
      (key : String) (expected : Value → Bool) (rest : Schema) (v : Value)
      → get key payload ≡ some v
      → expected v ≡ true
      → Conforms payload rest
      → Conforms payload ((key, expected) ∷ rest)

check_schema-Conforms :
    (schema : Schema) (payload : Fields)
    → check_schema schema payload ≡ return tt
    → Conforms payload schema
unfolding check_schema
check_schema-Conforms [] payload h = nil
check_schema-Conforms ((key, expected) ∷ rest) payload h = elim (Option-cases (get key payload)) [
  | inl absent ↦ absurd (raise-return (rw (absent, check_schema) at h))
  | inr (v, there) ↦ elim (Bool-cases (expected v)) [
    | inl fits ↦
        cons key expected rest v there fits
          (check_schema-Conforms rest payload (rw (there, fits, check_schema) at h))
    | inr differs ↦ absurd (raise-return (rw (there, differs, check_schema) at h))
  ]
]

check_all-Conforms :
    (schema : Schema) (custom : Option (Fields → Result (Unit {0}))) (payload : Fields)
    → check_all schema custom payload ≡ return tt
    → Conforms payload schema
unfolding check_all
check_all-Conforms schema custom payload h =
    check_schema-Conforms schema payload (first-lem (check_schema schema payload) h)
  where
    first-lem :
        (r : Result (Unit {0}))
        → ◌≡◌ {A = Result (Unit {0})}
            (elim r [ raise e ↦ raise e | return _ ↦ run_custom custom payload ])
            (return tt)
        → r ≡ return tt
    first-lem (return _) e = refl
    first-lem (raise e) failed = absurd (raise-return failed)

module _ {E : Type 0} (skills : Dict (SkillSpec E)) (skill_name : String) (spec : SkillSpec E)
    (known : lookup skill_name skills ≡ some spec) where
  input-lem :
      (payload : Fields)
      → validate_input skills skill_name payload ≡ return tt
      → Conforms payload spec.input_schema
  unfolding validate_input
  input-lem payload h =
      check_all-Conforms spec.input_schema spec.validate_input payload
        (rw (known, validate_input) at h)

  output-lem :
      (r : Result Fields) (result : Fields)
      → checked_output skills skill_name r ≡ return result
      → Conforms result spec.output_schema
  unfolding checked_output validate_output
  output-lem (raise e) result h = absurd (raise-return h)
  output-lem (return made) result h = elim (Result-cases (validate_output skills skill_name made)) [
    | inl (e, failed) ↦ absurd (raise-return (rw (failed, checked_output) at h))
    | inr (_, passed) ↦
        subst (λ d. Conforms d spec.output_schema)
          (return-injective (rw (passed, checked_output) at h))
          (check_all-Conforms spec.output_schema spec.validate_output made
            (rw (known, validate_output) at passed))
  ]

  call-lem :
      (task : TaskRecord) (payload : Fields) (x : E) (result : Fields)
      → (call_skill skills skill_name spec task payload x).0 ≡ return result
      → Conforms payload spec.input_schema × Conforms result spec.output_schema
  unfolding call_skill
  call-lem task payload x result h =
      elim (Result-cases (validate_input skills skill_name payload)) [
        | inl (e, failed) ↦ absurd (raise-return (rw (failed, call_skill) at h))
        | inr (_, passed) ↦ (
          input-lem payload passed,
          output-lem (spec.handler task payload x).0 result (rw (passed, call_skill) at h),
        )
      ]

-- What a skill that succeeded had: the skill is registered, the payload with the keyword arguments
-- conforms to its input schema and the result to its output schema.
pub record Executed {E : Type 0} (skills : Dict (SkillSpec E)) (skill_name : String)
    (payload result : Fields) : Type 0 where
  pub spec : SkillSpec E
  pub registered : lookup skill_name skills ≡ some spec
  pub input : Conforms payload spec.input_schema
  pub output : Conforms result spec.output_schema

-- A skill returns a result only if it is registered, its input conforms to its input schema and the
-- result to its output schema.
pub execute-Executed :
    {E : Type 0} (skills : Dict (SkillSpec E)) (skill_name : String) (task : TaskRecord)
    (kwargs : Fields) (x : E) (result : Fields)
    → (execute skills skill_name task kwargs x).0 ≡ return result
    → Executed skills skill_name (update task.payload kwargs) result
unfolding execute
execute-Executed skills skill_name task kwargs x result h =
    elim (Option-cases (lookup skill_name skills)) [
      | inl unknown ↦ absurd (raise-return (rw (unknown, execute) at h))
      | inr (spec, known) ↦
          let (input, output) =
            call-lem skills skill_name spec known task (update task.payload kwargs) x result
              (rw (known, execute) at h) in
          record { spec = spec; registered = known; input = input; output = output }
    ]
