-- ===== src/Registry/Dispatcher.antt =====
-- registry/dispatcher.py: tasks go to the handler that is registered for the kind in their payload.
use fine_tune_harness.Base.{
  String, Bool, true, false, Option, none, some, List, [], ◌∷◌, if◌then◌else◌, ◌==◌, Dict, lookup,
  insert, has_key, lookup-insert, ◌≡◌, refl, arith,
}
use fine_tune_harness.Base.Text.{codes, is_blank}
use fine_tune_harness.Effects.{Result, return, raise, value_error}
use fine_tune_harness.State.Value.{Value, str, get}
use fine_tune_harness.State.Models.{TaskRecord}
use fine_tune_harness.Orchestrator.Hooks.{add_name}

-- The kind of a task: ValueError if it is missing, is no text or is blank.
unfoldable pub validate_task_payload : TaskRecord → Result String
unfolding is_blank
validate_task_payload task = elim (get "kind" task.payload) [
  | none ↦ raise value_error
  | some kind ↦ elim kind [
    | str name ↦ if is_blank (codes name) then raise value_error else return name
    | _ ↦ raise value_error
  ]
]

module _ {F : Type 0} where
  -- A kind is registered once, and is not empty.
  unfoldable pub register : String → F → Dict F → Result (Dict F)
  unfolding has_key insert
  register kind fn registry =
      if kind == ""
      then raise value_error
      else if has_key kind registry
      then raise value_error
      else return (insert kind fn registry)

  -- `sorted(self._registry)`
  unfoldable pub kinds : Dict F → List String
  unfolding add_name
  kinds [] = []
  kinds ((kind, _) ∷ rest) = add_name kind (kinds rest)

-- `fn(task)`, where a kind without a handler raises ValueError. A handler is code of the user, which
-- changes the world outside.
unfoldable pub dispatch_to :
    {E : Type 0} → Option (TaskRecord → E → Result Value × E) → TaskRecord → E → Result Value × E
dispatch_to none task x = (raise value_error, x)
dispatch_to (some fn) task x = fn task x

unfoldable pub dispatch :
    {E : Type 0} → Dict (TaskRecord → E → Result Value × E) → TaskRecord → E → Result Value × E
unfolding validate_task_payload lookup dispatch_to
dispatch registry task x = elim (validate_task_payload task) [
  | raise e ↦ (raise e, x)
  | return kind ↦ dispatch_to (lookup kind registry) task x
]

register-lem :
    {F : Type 0} (kind : String) (fn : F) (before after : Dict F)
    → register kind fn before ≡ return after
    → after ≡ insert kind fn before
unfolding register
register-lem kind fn before after h = ground arith

-- After a kind is registered, a task with that kind goes to its handler, and a task with another kind
-- goes where it went before.
pub dispatch-register :
    {E : Type 0} (kind : String) (fn : TaskRecord → E → Result Value × E)
    (before after : Dict (TaskRecord → E → Result Value × E)) (task : TaskRecord) (name : String)
    (x : E)
    → register kind fn before ≡ return after
    → validate_task_payload task ≡ return name
    → dispatch after task x ≡ (if kind == name then fn task x else dispatch before task x)
unfolding dispatch dispatch_to
dispatch-register kind fn before after task name x added valid =
    rw (valid, register-lem kind fn before after added, lookup-insert kind name fn before, dispatch)
      (pick (kind == name))
  where
    pick :
        (b : Bool)
        → dispatch_to (if b then some fn else lookup name before) task x
          ≡ (if b then fn task x else dispatch_to (lookup name before) task x)
    pick true = refl
    pick false = refl
