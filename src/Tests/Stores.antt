-- ===== src/Tests/Stores.antt =====
-- The theorems on the store (state/memory_store.py) at tables of two tasks.
use fine_tune_harness.Base.{
  String, true, false, none, some, List, [], ◌∷◌, ◌≡◌, ◌≢◌, ◌≤◌, values, ◌↔◌, ◌⊎◌, refl, arith,
  lookup, insert,
}
use fine_tune_harness.State.Models.{RunStatus, TaskStatus, TaskRecord}
use fine_tune_harness.State.Memory.{
  Store, is_leaseable, lease_next_pending_task, list_tasks, tasks_of_run, sort_by_key,
  insert_sorted, key_le, first_such, has_expired_lease, put_task, append_event, new_event,
  optional_str,
}
use fine_tune_harness.State.Leases.{from_seconds}
use fine_tune_harness.Orchestrator.Lifecycle.{task_is}
use fine_tune_harness.State.Memory.Recovery.{
  reclaim_dead_worker, requeue_expired_leases, is_held, nothing_held,
}
use fine_tune_harness.State.Memory.Keys.{IsKeyed}
use fine_tune_harness.State.Memory.Moves.{
  Op, lease, update, reclaim, apply_op, apply_all, Move, is_terminal,
}
use fine_tune_harness.State.Memory.Moves.Requeue.{requeue_expired_leases_recovers}
use fine_tune_harness.State.Memory.Histories.{
  apply_op_moves, apply_all-IsKeyed, apply_all_terminal_final,
}
use fine_tune_harness.State.Memory.Leasing.{
  claim, lease_next_pending_task_claims, lease_next_pending_task_none,
  lease_next_pending_task_exclusive,
}
use fine_tune_harness.State.Memory.Reclaiming.{Recovered, reclaim_dead_worker_cases}
use fine_tune_harness.State.Memory.Reclaiming.Budgets.{
  Turn, death, call, requeues, requeues_bounded,
}
use fine_tune_harness.Tests.{task_as, held_by, store_of, stamp}

abbrev two_pending : Store
two_pending =
    store_of RunStatus.running
      (("a", task_as "a" TaskStatus.pending 0) ∷ ("b", task_as "b" TaskStatus.pending 0) ∷ [])

abbrev one_ended : Store
one_ended = store_of RunStatus.running (
    ("a", task_as "a" TaskStatus.succeeded 1)
    ∷ ("b", held_by "w" 9 (task_as "b" TaskStatus.leased 1))
    ∷ [])

two_pending-IsKeyed : IsKeyed two_pending.tasks
unfolding lookup
two_pending-IsKeyed = (refl, refl, (refl, refl, tt))

one_ended-IsKeyed : IsKeyed one_ended.tasks
unfolding lookup
one_ended-IsKeyed = (refl, refl, (refl, refl, tt))

abbrev history : List Op
history =
    update "a" TaskStatus.failed none (some "late")
    ∷ reclaim stamp "r" "w" 1
    ∷ lease 6 7 stamp "r" "v" 300
    ∷ []

apply_all_terminal_final_example :
    (t' : TaskRecord) × (lookup "a" (apply_all history one_ended).tasks ≡ some t')
    × (t' ≡ record (task_as "a" TaskStatus.succeeded 1) { attempt_count = t'.attempt_count })
unfolding lookup is_terminal
apply_all_terminal_final_example =
    apply_all_terminal_final history one_ended "a" (task_as "a" TaskStatus.succeeded 1)
      one_ended-IsKeyed refl refl

apply_all-IsKeyed_example : IsKeyed (apply_all history one_ended).tasks
apply_all-IsKeyed_example = apply_all-IsKeyed history one_ended one_ended-IsKeyed

apply_op_moves_example :
    (t' : TaskRecord) × (lookup "b" (apply_op (reclaim stamp "r" "w" 1) one_ended).tasks ≡ some t')
    × Move TaskStatus.leased t'.status
    × ((is_terminal TaskStatus.leased ≡ false)
        ⊎ (t' ≡ record (held_by "w" 9 (task_as "b" TaskStatus.leased 1)) {
          attempt_count = t'.attempt_count;
        }))
unfolding lookup
apply_op_moves_example =
    apply_op_moves (reclaim stamp "r" "w" 1) one_ended one_ended-IsKeyed "b"
      (held_by "w" 9 (task_as "b" TaskStatus.leased 1)) refl

requeue_expired_leases_recovers_example :
    lookup "b" (requeue_expired_leases 20 (λ _. stamp) "r" one_ended).1.tasks
    ≡ some (task_as "b" TaskStatus.pending 1)
unfolding lookup has_expired_lease task_is
requeue_expired_leases_recovers_example =
    requeue_expired_leases_recovers 20 (λ _. stamp) "r" one_ended one_ended-IsKeyed "b"
      (held_by "w" 9 (task_as "b" TaskStatus.leased 1)) refl

first_lease :
    (lease_next_pending_task 1 2 stamp "r" "w" 300 two_pending).0
    ≡ some (claim (task_as "a" TaskStatus.pending 0) "w" 302)
unfolding lease_next_pending_task list_tasks tasks_of_run sort_by_key insert_sorted key_le
    first_such is_leaseable has_expired_lease from_seconds put_task append_event new_event
    optional_str insert lookup values task_is
first_lease = refl

second_lease :
    (lease_next_pending_task 3 4 stamp "r" "v" 300
      (lease_next_pending_task 1 2 stamp "r" "w" 300 two_pending).1).0
    ≡ some (claim (task_as "b" TaskStatus.pending 0) "v" 304)
unfolding lease_next_pending_task list_tasks tasks_of_run sort_by_key insert_sorted key_le
    first_such is_leaseable has_expired_lease from_seconds put_task append_event new_event
    optional_str insert lookup values task_is
second_lease = refl

lease_next_pending_task_claims_example :
    (old : TaskRecord) × (lookup "a" two_pending.tasks ≡ some old)
    × (old.run_id ≡ "r")
    × (is_leaseable 1 old ≡ true)
    × (claim (task_as "a" TaskStatus.pending 0) "w" 302 ≡ claim old "w" 302)
    × ((lease_next_pending_task 1 2 stamp "r" "w" 300 two_pending).1.tasks
        ≡ insert "a" (claim (task_as "a" TaskStatus.pending 0) "w" 302) two_pending.tasks)
lease_next_pending_task_claims_example =
    lease_next_pending_task_claims 1 2 stamp "r" "w" 300 two_pending two_pending-IsKeyed
      (claim (task_as "a" TaskStatus.pending 0) "w" 302) first_lease

lease_next_pending_task_none_example :
    ((lease_next_pending_task 1 2 stamp "r" "v" 300 one_ended).0 ≡ none) ↔ (
      (k : String) (t : TaskRecord)
      → lookup k one_ended.tasks ≡ some t
      → t.run_id ≡ "r"
      → is_leaseable 1 t ≡ false)
lease_next_pending_task_none_example =
    lease_next_pending_task_none 1 2 stamp "r" "v" 300 one_ended one_ended-IsKeyed

lease_next_pending_task_exclusive_example : ◌≢◌ {A = String} "b" "a"
lease_next_pending_task_exclusive_example =
    lease_next_pending_task_exclusive 1 2 3 4 stamp stamp "r" "w" "v" 300 300 two_pending
      (claim (task_as "a" TaskStatus.pending 0) "w" 302)
      (claim (task_as "b" TaskStatus.pending 0) "v" 304) two_pending-IsKeyed first_lease
      second_lease (ground arith)

-- The worker dies, another leases the task again and dies too.
abbrev turns : List Turn
turns =
    death stamp "r" "w"
    ∷ call (Op.lease 5 6 stamp "r" "v" 300)
    ∷ call (Op.mark "b")
    ∷ death stamp "r" "v"
    ∷ []

requeues_bounded_example : requeues 1 "b" turns one_ended ≤ 1
requeues_bounded_example = requeues_bounded 1 turns one_ended "b"

reclaim_dead_worker_cases_example :
    ((reclaim_dead_worker stamp "r" "w" 1 one_ended ≡ (nothing_held, one_ended))
      × ((k : String) (t : TaskRecord)
          → lookup k one_ended.tasks ≡ some t
          → is_held "r" "w" t ≡ false))
    ⊎ ((t : TaskRecord) × (is_held "r" "w" t ≡ true)
        × (lookup t.task_id one_ended.tasks ≡ some t)
        × Recovered stamp "r" "w" 1 one_ended t (reclaim_dead_worker stamp "r" "w" 1 one_ended).0)
reclaim_dead_worker_cases_example =
    reclaim_dead_worker_cases stamp "r" "w" 1 one_ended one_ended-IsKeyed
