-- ===== src/Orchestrator/Hooks.antt =====
-- orchestrator/hooks.py: the registry of lifecycle hooks. A hook is code of the user: it may change
-- the dictionaries that it is given and the outside world, and it may raise; it has no access to the
-- store. The lock only serialises access to the table and is not modelled.
use fine_tune_harness.Base.{
  ℕ, ◌+◌, String, Bool, false, Option, none, some, List, [], ◌∷◌, ◌++◌, map, if◌then◌else◌, ◌==◌,
  Dict, lookup, insert, ◌||◌,
}
use fine_tune_harness.Effects.{Exception, Result, return, raise, value_error}
use fine_tune_harness.State.Value.{Fields}
use fine_tune_harness.State.Models.{RunStatus, TaskRecord}
use Prim.Native.String.{compare}
use text.Mathlib.Text.{is_lt}

-- The keyword arguments of a hook: which of them are given depends on the point.
pub record Call : Type 0 where
  pub task : Option TaskRecord
  pub result : Option Fields
  pub error : Option Exception
  pub run_id : Option String
  pub status : Option RunStatus

-- What a hook leaves: the dictionaries that it was given, and whether it raised.
pub record HookOutcome (E : Type 0) : Type 0 where
  pub payload : Fields
  pub result : Fields
  pub error : Option Exception
  pub outside : E

-- `owner` is the type name of the instance that the hook is a method of, if that instance declares
-- `cumulative_across_tasks`.
pub record Hook (E : Type 0) : Type 0 where
  pub qualname : String
  pub cumulative_owner : Option String
  pub call : Call → E → HookOutcome E

abbrev pub HookRegistry : Type 0 → Type 0
HookRegistry E = Dict (List (Hook E))

abbrev pub valid_points : List String
valid_points =
    "before_run_start" ∷ "before_task" ∷ "after_task_success" ∷ "after_task_failure"
    ∷ "after_task_timeout" ∷ "on_run_status_changed" ∷ []

unfoldable pub is_valid_point : String → List String → Bool
is_valid_point p [] = false
is_valid_point p (q ∷ qs) = p == q || is_valid_point p qs

-- `seen[type(inst).__name__] = True`, kept sorted.
unfoldable pub add_name : String → List String → List String
add_name n [] = n ∷ []
add_name n (m ∷ ms) =
    let further = add_name n ms in
    if n == m then m ∷ ms else if is_lt (compare n m) then n ∷ m ∷ ms else m ∷ further

module _ {E : Type 0} where
  -- `self._hooks.get(point, [])`
  unfoldable pub hooks_at : String → HookRegistry E → List (Hook E)
  unfolding lookup
  hooks_at point hooks = elim (lookup point hooks) [ none ↦ [] | some fns ↦ fns ]

  unfoldable pub register : String → Hook E → HookRegistry E → Result (HookRegistry E)
  unfolding is_valid_point hooks_at insert
  register point fn hooks =
      if is_valid_point point valid_points
      then return (insert point (hooks_at point hooks ++ fn ∷ []) hooks)
      else raise value_error

  unfoldable pub hook_names : String → HookRegistry E → List String
  unfolding hooks_at
  hook_names point hooks = map (λ h. h.qualname) (hooks_at point hooks)

  unfoldable pub count_hooks : List (Hook E) → ℕ
  count_hooks [] = 0
  count_hooks (h ∷ hs) = 1 + count_hooks hs

  unfoldable pub total : HookRegistry E → ℕ
  unfolding count_hooks
  total [] = 0
  total ((_, fns) ∷ rest) = count_hooks fns + total rest

  -- The dictionaries are shared objects, so what a hook did to them is seen by the next one.
  unfoldable pub mutate : Call → HookOutcome E → Call
  mutate c o = record c {
    task = elim c.task [ none ↦ none | some task ↦ some (record task { payload = o.payload }) ];
    result = elim c.result [ none ↦ none | some _ ↦ some o.result ];
  }

  -- The hooks run in order; one that raises is logged and skipped.
  unfoldable pub fire_all : List (Hook E) → Call → E → Call × E
  unfolding mutate
  fire_all [] c x = (c, x)
  fire_all (h ∷ hs) c x = let o = h.call c x in fire_all hs (mutate c o) o.outside

  unfoldable pub fire : HookRegistry E → String → Call → E → Call × E
  unfolding hooks_at fire_all
  fire hooks point c x = fire_all (hooks_at point hooks) c x

  unfoldable pub owners_of : List (Hook E) → List String → List String
  unfolding add_name
  owners_of [] seen = seen
  owners_of (h ∷ hs) seen =
      owners_of hs (elim h.cumulative_owner [ none ↦ seen | some owner ↦ add_name owner seen ])

  unfoldable pub cumulative_owners : HookRegistry E → List String → List String
  unfolding owners_of
  cumulative_owners [] seen = seen
  cumulative_owners ((_, fns) ∷ rest) seen = cumulative_owners rest (owners_of fns seen)

  unfoldable pub cumulative_hook_types : HookRegistry E → List String
  unfolding cumulative_owners
  cumulative_hook_types hooks = cumulative_owners hooks []
