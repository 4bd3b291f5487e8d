-- ===== src/State/Memory/Reclaiming.antt =====
-- What reclaim_dead_worker does with the task that a dead worker held (state/memory_store.py).
pub mod Budgets
use fine_tune_harness.Base.{
  ℕ, ◌+◌, ◌≤◌, ◌<◌, String, true, false, none, some, List, [], ◌∷◌, ◌++◌, ◌≡◌, refl, ◌⊎◌, inl, inr,
  arith, leb, leb→le, ◌==◌, if◌then◌else◌, eq_iff, Bool-cases, Option-cases, lookup, insert, values,
}
use fine_tune_harness.State.Value.{Fields}
use fine_tune_harness.Base.{has_key}
use fine_tune_harness.Effects.{Result-cases}
use fine_tune_harness.State.Memory.Moves.{
  Op, create, update, lease, mark, increment, requeue, reclaim, apply_op,
}
use fine_tune_harness.Orchestrator.Lifecycle.{task_is, ensure_task_transition}
use fine_tune_harness.Base.{suc, Bool, Option, ◌||◌, ◌&&◌, lookup-insert}
use fine_tune_harness.State.Models.{
  TaskStatus, pending, leased, running, failed, TaskRecord, EventRecord,
}
use fine_tune_harness.State.Memory.{
  Store, Stamp, first_such, new_event, create_task, update_task_status, mark_task_running,
  increment_task_attempts, lease_next_pending_task, has_expired_lease, is_leaseable, list_tasks,
  append_event, put_task, put_task_at,
}
use fine_tune_harness.State.Memory.Recovery.{
  Reclaim, nothing_held, abandoned, requeued, reclaim_dead_worker, requeue_each,
  requeue_expired_leases, is_held, is_about, count_events, unleased,
}
use fine_tune_harness.State.Memory.Keys.{In-values, IsKeyed, lookup_of_In, first_such-In}
use fine_tune_harness.State.Memory.Leasing.{first_such-none}

-- The events of kind "lease_reclaimed" about a task.
abbrev pub reclaims : String → Store → ℕ
reclaims task_id s = count_events task_id "lease_reclaimed" s.events

pub count_events-append :
    (task_id kind : String) (es : List EventRecord) (e : EventRecord)
    → count_events task_id kind (es ++ e ∷ [])
      ≡ count_events task_id kind es + count_events task_id kind (e ∷ [])
unfolding count_events
count_events-append task_id kind [] e = ground arith
count_events-append task_id kind (x ∷ es) e = ground (arith, count_events-append task_id kind es e)

-- The event that an abandoned task gets is not counted, and the one of a requeued task counts once.
pub count_events-abandoned :
    (stamp : Stamp) (run_id task_id about : String) (p : Fields) (es : List EventRecord)
    → count_events task_id "lease_reclaimed"
        (es ++ new_event stamp run_id (some about) "task_abandoned" p ∷ [])
      ≡ count_events task_id "lease_reclaimed" es
unfolding count_events new_event is_about
count_events-abandoned stamp run_id task_id about p es = ground (
  arith,
  count_events-append task_id "lease_reclaimed" es
      (new_event stamp run_id (some about) "task_abandoned" p),
)

pub count_events-reclaimed :
    (stamp : Stamp) (run_id task_id about : String) (p : Fields) (es : List EventRecord)
    → count_events task_id "lease_reclaimed"
        (es ++ new_event stamp run_id (some about) "lease_reclaimed" p ∷ [])
      ≡ (if about == task_id
          then count_events task_id "lease_reclaimed" es + 1
          else count_events task_id "lease_reclaimed" es)
unfolding count_events new_event is_about
count_events-reclaimed stamp run_id task_id about p es = ground (
  arith,
  count_events-append task_id "lease_reclaimed" es
      (new_event stamp run_id (some about) "lease_reclaimed" p),
)

module _ (stamp : Stamp) (run_id worker_id : String) (n : ℕ) (s : Store) where
  abbrev pub outcome : Reclaim × Store
  outcome = reclaim_dead_worker stamp run_id worker_id n s

  -- What was done to the task `t`, by the result of the call.
  abbrev pub Recovered : TaskRecord → Reclaim → Type 0
  Recovered t nothing_held = ⊥
  Recovered t requeued =
      (reclaims t.task_id s < n)
      × (outcome.1.tasks ≡ insert t.task_id (unleased t) s.tasks)
      × (reclaims t.task_id outcome.1 ≡ reclaims t.task_id s + 1)
  Recovered t abandoned =
      (n ≤ reclaims t.task_id s)
      × (outcome.1.tasks
          ≡ insert t.task_id
              (record (unleased t) {
                status = failed;
                error = some "worker died without reporting";
              })
              s.tasks)
      × (reclaims t.task_id outcome.1 ≡ reclaims t.task_id s)

  nothing-lem :
      first_such (is_held run_id worker_id) (values s.tasks) ≡ none → outcome ≡ (nothing_held, s)
  unfolding reclaim_dead_worker
  nothing-lem nothing = rw (nothing, reclaim_dead_worker)

  spent-lem :
      (t : TaskRecord)
      → first_such (is_held run_id worker_id) (values s.tasks) ≡ some t
      → leb n (reclaims t.task_id s) ≡ true
      → (outcome.0 ≡ abandoned) × Recovered t abandoned
  unfolding reclaim_dead_worker unleased
  spent-lem t hit spent =
      rw (hit, spent, reclaim_dead_worker)
        (refl, (leb→le _ _ spent, refl, rw count_events-abandoned refl))

  left-lem :
      (t : TaskRecord)
      → first_such (is_held run_id worker_id) (values s.tasks) ≡ some t
      → leb n (reclaims t.task_id s) ≡ false
      → (outcome.0 ≡ requeued) × Recovered t requeued
  unfolding reclaim_dead_worker unleased
  left-lem t hit left =
      rw (hit, left, reclaim_dead_worker)
        (
          refl,
          (
            ground arith,
            refl,
            rw count_events-reclaimed (ground (arith, eq_iff t.task_id t.task_id)),
          ),
        )

  -- In a table where each task stands under its own id, once: either nothing is found, the store is
  -- unchanged and the worker holds no task of the run that is LEASED or RUNNING; or a task that it
  -- holds was found. With fewer than `n` reclaims of it recorded it is PENDING again and one more is
  -- recorded; otherwise it is FAILED and none is added. No other task changes.
  pub reclaim_dead_worker_cases :
      IsKeyed s.tasks
      → ((outcome ≡ (nothing_held, s))
          × ((k : String) (t : TaskRecord)
              → lookup k s.tasks ≡ some t
              → is_held run_id worker_id t ≡ false))
        ⊎ ((t : TaskRecord) × (is_held run_id worker_id t ≡ true)
            × (lookup t.task_id s.tasks ≡ some t)
            × Recovered t outcome.0)
  reclaim_dead_worker_cases keyed =
      elim (Option-cases (first_such (is_held run_id worker_id) (values s.tasks))) [
        | inl nothing ↦ inl (
          nothing-lem nothing,
          λ k t found.
              first_such-none (is_held run_id worker_id) (values s.tasks) t nothing
                (In-values k t s.tasks found),
        )
        | inr (t, hit) ↦
            let (held, at) = first_such-In (is_held run_id worker_id) (values s.tasks) t hit in
            let found = lookup_of_In t s.tasks keyed at in
            inr (
              t,
              held,
              found,
              elim (Bool-cases (leb n (reclaims t.task_id s))) [
                | inl spent ↦ let (e, done) = spent-lem t hit spent in rw e done
                | inr left ↦ let (e, done) = left-lem t hit left in rw e done
              ],
            )
      ]
