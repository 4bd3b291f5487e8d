-- ===== src/State/Memory/Moves.antt =====
-- How the methods of the in-memory store move the status of a task, and that a task which has ended
-- is never touched again but for its attempt count (state/memory_store.py).
pub mod Steps
pub mod Requeue
use fine_tune_harness.Base.{
  ℕ, suc, String, Bool, true, false, Option, none, some, List, [], ◌∷◌, ◌≡◌, refl, sym, ap, ◌∙◌,
  ◌⊎◌, inl, inr, arith, if◌then◌else◌, ◌==◌, eq_iff, Bool-cases, ◌+◌, Dict, lookup, insert, values,
  has_key, lookup-insert,
}
use fine_tune_harness.Effects.{Result, return, raise, Exception}
use fine_tune_harness.State.Value.{Fields}
use fine_tune_harness.State.Models.{
  TaskStatus, pending, leased, running, succeeded, failed, timed_out, degenerate, cancelled,
  TaskRecord,
}
use fine_tune_harness.Orchestrator.Lifecycle.{ensure_task_transition, task_is}
use fine_tune_harness.State.Memory.{
  Store, Stamp, create_task, update_task_status, lease_next_pending_task, mark_task_running,
  increment_task_attempts, has_expired_lease, is_leaseable, first_such, list_tasks, put_task,
  put_task_at, append_event,
}
use fine_tune_harness.State.Memory.Recovery.{
  requeue_each, requeue_expired_leases, reclaim_dead_worker, is_held, unleased,
}
use fine_tune_harness.State.Memory.Keys.{
  In, IsKeyed, insert-IsKeyed, lookup-task_id, lookup_of_In, first_such-In, In-sort_by_key,
  In-tasks_of_run,
}

-- A method of the store that may change tasks, with its arguments and what it reads of the clock.
pub data Op : Type 0 where
  create : TaskRecord → Op
  update : String → TaskStatus → Option Fields → Option String → Op
  lease : (now lease_now : ℕ) → Stamp → (run_id worker_id : String) → ℕ → Op
  mark : String → Op
  increment : String → Op
  requeue : (now : ℕ) → (ℕ → Stamp) → String → Op
  reclaim : Stamp → (run_id worker_id : String) → ℕ → Op

-- The store after the call, whether or not it raised.
unfoldable pub apply_op : Op → Store → Store
apply_op (create t) s = (create_task t s).1
apply_op (update id st r e) s = (update_task_status id st r e s).1
apply_op (lease now lease_now stamp run_id worker_id secs) s =
    (lease_next_pending_task now lease_now stamp run_id worker_id secs s).1
apply_op (mark id) s = (mark_task_running id s).1
apply_op (increment id) s = (increment_task_attempts id s).1
apply_op (requeue now stamps run_id) s = (requeue_expired_leases now stamps run_id s).1
apply_op (reclaim stamp run_id worker_id n) s = (reclaim_dead_worker stamp run_id worker_id n s).1

unfoldable pub apply_all : List Op → Store → Store
apply_all [] s = s
apply_all (o ∷ os) s = apply_all os (apply_op o s)

-- One move of a status. The last three are not in the table of lifecycle.py: a renewed lease, and
-- a lease that is given up because it expired or its worker died.
pub data Move : TaskStatus → TaskStatus → Type 0 where
  same : {s : TaskStatus} → Move s s
  listed : {s t : TaskStatus} → ensure_task_transition s t ≡ return tt → Move s t
  release : Move leased pending
  abandon : Move leased failed

unfoldable pub is_terminal : TaskStatus → Bool
is_terminal pending = false
is_terminal leased = false
is_terminal running = false
is_terminal _ = true

-- What an operation may do to the table: the task under a key is kept, moved or created.
abbrev pub Related : Dict TaskRecord → Dict TaskRecord → Type 0
Related d d' =
    (k : String) (t : TaskRecord)
    → lookup k d ≡ some t
    → (t' : TaskRecord) × (lookup k d' ≡ some t')
      × Move t.status t'.status
      × (is_terminal t.status ≡ true → t' ≡ record t { attempt_count = t'.attempt_count })
