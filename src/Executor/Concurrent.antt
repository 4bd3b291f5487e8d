-- ===== src/Executor/Concurrent.antt =====
-- executor/worker.py: drain_concurrent, as the parent process sees it. A child runs one task on the same
-- database and reports an outcome, or dies; what children do between two steps of the parent is a step
-- of its own, of any effect on the database. A child's pid comes from the operating system, the free
-- memory of each device from the monitor. The pause after an admission changes no state, and `stopped`
-- stays false, since a stop function is refused.
pub mod Bounds
pub mod Children
use fine_tune_harness.Base.{
  ℕ, zero, suc, ◌+◌, ◌-◌, ◌*◌, String, Bool, true, false, not, ◌&&◌, ◌||◌, Option, none, some, List,
  [], ◌∷◌, ◌++◌, ltb, leb, nat_eq, if◌then◌else◌, ◌≡◌,
}
use fine_tune_harness.Base.Int.{ℤ, pos, pos_part, neg_part}
use fine_tune_harness.Effects.{raised, type_error, Result, return, raise, Exec, pure, ◌>>=◌, ◌>>◌}
use fine_tune_harness.State.Value.{Float, nan, inf, finite, float_lt, float_le}
use fine_tune_harness.State.Models.{TaskRecord}
use fine_tune_harness.State.Memory.{Stamp, is_leaseable}
use fine_tune_harness.State.Memory.Recovery.{Reclaim}
use fine_tune_harness.State.Sqlite.{Database}
use fine_tune_harness.State.Sqlite.Tasks.{list_tasks}
use fine_tune_harness.State.Sqlite.Recovery.{reclaim_dead_worker}
use fine_tune_harness.Evaluation.Validator.{zero_float}
use fine_tune_harness.Evaluation.Floats.{round_float}
use fine_tune_harness.Orchestrator.Hooks.{HookRegistry, total, cumulative_hook_types}
use fine_tune_harness.Executor.Conversion.{at_least_one}

-- executor/resources.py: the knobs of the admission; the mode and the pause are not used here.
pub record ConcurrencyConfig : Type 0 where
  pub min_free_mb : Float
  pub max_concurrent : ℤ
  pub max_oom_retries : ℕ

-- What a concurrent drain refuses, in the order of the tests.
unfoldable pub check_concurrent :
    {E : Type 0}
    (has_stop is_sqlite has_hooks_factory is_default_sandbox has_sandbox_factory : Bool)
    → HookRegistry E
    → Result (Unit {0})
unfolding total cumulative_hook_types
check_concurrent has_stop is_sqlite has_hooks_factory is_default_sandbox has_sandbox_factory hooks =
    let refused = raised "RuntimeError" "drain_concurrent" in
    if has_stop
    then raise refused
    else if not is_sqlite
    then raise type_error
    else if not has_hooks_factory && ltb 0 (total hooks)
    then raise refused
    else if not has_sandbox_factory && not is_default_sandbox
    then raise refused
    else elim (cumulative_hook_types hooks) [ [] ↦ return tt | _ ∷ _ ↦ raise refused ]

-- A task process that is in flight.
pub record Child : Type 0 where
  pub pid : ℕ
  pub worker_id : String
  pub device : ℕ

-- The variables of drain_concurrent, and the database.
pub record Parent : Type 0 where
  pub db : Database
  pub in_flight : List Child
  pub ceiling : ℕ
  pub min_free : Float
  pub succeeded : ℕ
  pub child_seq : ℕ

unfoldable pub count_children : List Child → ℕ
count_children [] = 0
count_children (c ∷ cs) = 1 + count_children cs

-- `in_flight[pid] = …`
unfoldable pub put_child : Child → List Child → List Child
put_child c [] = c ∷ []
put_child c (d ∷ ds) = let rest = put_child c ds in if nat_eq d.pid c.pid then c ∷ ds else d ∷ rest

-- `in_flight.pop(pid, None)`
unfoldable pub pop_child : (pid : ℕ) → List Child → List Child
pop_child pid [] = []
pop_child pid (c ∷ cs) = let rest = pop_child pid cs in if nat_eq c.pid pid then cs else c ∷ rest

-- `max(1, ceiling - 1)`
unfoldable pub lower : ℕ → ℕ
lower ceiling = if leb 2 ceiling then ceiling - 1 else 1

unfoldable pub count_leaseable : (now : ℕ) → List TaskRecord → ℕ
unfolding is_leaseable
count_leaseable now [] = 0
count_leaseable now (t ∷ ts) = (if is_leaseable now t then 1 else 0) + count_leaseable now ts

-- The free memory of a device, 0.0 for one that the monitor no longer lists.
unfoldable pub free_for : ℕ → List Float → Float
free_for device [] = zero_float
free_for zero (free ∷ _) = free
free_for (suc device) (_ ∷ live) = free_for device live

-- `sorted(range(n), key=free, reverse=True)`, a stable sort.
unfoldable pub insert_device : List Float → ℕ → List ℕ → List ℕ
unfolding float_lt free_for
insert_device live d [] = d ∷ []
insert_device live d (e ∷ es) =
    let rest = insert_device live d es in
    if float_lt (free_for d live) (free_for e live) then e ∷ rest else d ∷ e ∷ es

unfoldable pub sort_devices : List Float → (count first : ℕ) → List ℕ
unfolding insert_device
sort_devices live zero first = []
sort_devices live (suc count) first = insert_device live first (sort_devices live count (first + 1))

unfoldable pub is_busy : ℕ → List Child → Bool
is_busy device [] = false
is_busy device (c ∷ cs) = nat_eq c.device device || is_busy device cs

unfoldable pub first_idle : List Child → List ℕ → Option ℕ
unfolding is_busy
first_idle in_flight [] = none
first_idle in_flight (d ∷ ds) =
    if not (is_busy d in_flight) then some d else first_idle in_flight ds

unfoldable pub first_roomy : (min_free : Float) → List Float → List ℕ → Option ℕ
unfolding float_le free_for
first_roomy min_free live [] = none
first_roomy min_free live (d ∷ ds) =
    if float_le min_free (free_for d live) then some d else first_roomy min_free live ds

-- An idle device first, else a busy one with the headroom.
unfoldable pub choose_device :
    (num_devices : ℕ) → List Child → (min_free : Float) → List Float → Option ℕ
unfolding sort_devices first_idle first_roomy
choose_device num_devices in_flight min_free live =
    let order = sort_devices live num_devices 0 in
    elim (first_idle in_flight order) [ some d ↦ some d | none ↦ first_roomy min_free live order ]

-- `min_free * 1.5`
unfoldable pub half_more : Float → Float
unfolding round_float
half_more nan = nan
half_more (inf negative) = inf negative
half_more (finite m k) = round_float (ltb 0 (neg_part m)) (3 * (pos_part m + neg_part m)) (k + 1)

pub data ChildOutcome : Type 0 where
  succeeded oom empty error : ChildOutcome

-- A report of a child.
unfoldable pub on_report : (pid : ℕ) → ChildOutcome → Parent → Parent
unfolding pop_child lower half_more
on_report pid succeeded p = record p {
  in_flight = pop_child pid p.in_flight;
  succeeded = p.succeeded + 1;
}
on_report pid oom p = record p {
  in_flight = pop_child pid p.in_flight;
  ceiling = lower p.ceiling;
  min_free = half_more p.min_free;
}
on_report pid empty p = record p { in_flight = pop_child pid p.in_flight }
on_report pid error p = record p { in_flight = pop_child pid p.in_flight }

-- A call of the store.
unfoldable pub on_db : {A : Type 0} → Exec Database A → Exec Parent A
on_db f p = let (r, db) = f p.db in (r, record p { db = db })

-- `child_worker_id` is the id that the n-th child gets.
module _ (config : ConcurrencyConfig) (run_id : String) (num_devices : ℕ)
    (child_worker_id : ℕ → String) where
  unfoldable pub start : Database → Parent
  unfolding at_least_one
  start db = record {
    db = db;
    in_flight = [];
    ceiling = at_least_one config.max_concurrent;
    min_free = config.min_free_mb;
    succeeded = 0;
    child_seq = 0;
  }

  unfoldable pub spawn : (pid device : ℕ) → Parent → Parent
  unfolding put_child
  spawn pid device p = record p {
    child_seq = p.child_seq + 1;
    in_flight =
        put_child
          (record { pid = pid; worker_id = child_worker_id (p.child_seq + 1); device = device })
          p.in_flight;
  }

  -- One round of the loop that admits children; `none` ends it.
  unfoldable pub admit : (now : ℕ) (live : List Float) (pid : ℕ) → Parent → Option Parent
  unfolding count_children count_leaseable list_tasks choose_device spawn
  admit now live pid p =
      if ltb (count_children p.in_flight) p.ceiling
        && ltb 0 (count_leaseable now (list_tasks run_id p.db))
      then elim (choose_device num_devices p.in_flight p.min_free live) [
        | none ↦ none
        | some device ↦ some (spawn pid device p)
      ]
      else none

  -- A child that died without a report: its task is recovered, or FAILED once the budget is spent.
  unfoldable pub recover : Stamp → Child → Exec Parent (Unit {0})
  unfolding on_db reclaim_dead_worker pop_child lower
  recover stamp c p =
      (on_db (reclaim_dead_worker stamp run_id c.worker_id config.max_oom_retries) >>= λ _ q.
      (return tt, record q { ceiling = lower q.ceiling }))
        (record p { in_flight = pop_child c.pid p.in_flight })

  unfoldable pub recover_dead :
      (is_alive : ℕ → Bool) (stamps : ℕ → Stamp) (n : ℕ) → List Child → Exec Parent (Unit {0})
  unfolding recover
  recover_dead is_alive stamps n [] = pure tt
  recover_dead is_alive stamps n (c ∷ cs) =
      (if is_alive c.pid then pure tt else recover (stamps n) c)
      >> recover_dead is_alive stamps (n + 1) cs

  -- The `finally` block, once the survivors have been joined.
  unfoldable pub teardown : (stamps : ℕ → Stamp) (n : ℕ) → List Child → Exec Parent (Unit {0})
  unfolding on_db reclaim_dead_worker
  teardown stamps n [] = pure tt
  teardown stamps n (c ∷ cs) =
      on_db (reclaim_dead_worker (stamps n) run_id c.worker_id config.max_oom_retries)
      >> teardown stamps (n + 1) cs

  -- The steps of the loop, and those of the children.
  pub data Step : Parent → Parent → Type 0 where
    admits :
        {p q : Parent} (now : ℕ) (live : List Float) (pid : ℕ)
        → admit now live pid p ≡ some q
        → Step p q
    reports : {p : Parent} (pid : ℕ) (outcome : ChildOutcome) → Step p (on_report pid outcome p)
    recovers :
        {p : Parent} (is_alive : ℕ → Bool) (stamps : ℕ → Stamp)
        → Step p (recover_dead is_alive stamps 0 p.in_flight p).1
    works : {p : Parent} (db : Database) → Step p (record p { db = db })

  -- What the loop reaches.
  pub data Steps : Parent → Parent → Type 0 where
    done : {p : Parent} → Steps p p
    next : {p q r : Parent} → Steps p q → Step q r → Steps p r
