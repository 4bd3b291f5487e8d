-- ===== src/State/Memory/Histories.antt =====
-- What holds of the tasks of the in-memory store over every sequence of calls of its methods
-- (state/memory_store.py, orchestrator/lifecycle.py).
use fine_tune_harness.Base.{
  ℕ, ap, String, true, false, ◌⊎◌, inl, inr, Bool-cases, some, List, [], ◌∷◌, ◌≡◌, refl, ◌∙◌,
  lookup,
}
use fine_tune_harness.State.Models.{TaskRecord}
use fine_tune_harness.State.Memory.{Store}
use fine_tune_harness.State.Memory.Keys.{IsKeyed}
use fine_tune_harness.State.Memory.Moves.{
  Op, create, update, lease, mark, increment, requeue, reclaim, apply_op, apply_all, Move,
  is_terminal,
}
use fine_tune_harness.State.Memory.Moves.Steps.{
  Step, create-Step, update-Step, lease-Step, mark-Step, increment-Step, reclaim-Step,
}
use fine_tune_harness.State.Memory.Moves.Requeue.{requeue-Step}

apply_op-Step : (o : Op) (s : Store) → IsKeyed s.tasks → Step s.tasks (apply_op o s).tasks
unfolding apply_op
apply_op-Step (create t) s h = create-Step s h t
apply_op-Step (update id st r e) s h = update-Step s h id st r e
apply_op-Step (lease now at stamp run_id worker_id secs) s h =
    lease-Step s h now at stamp run_id worker_id secs
apply_op-Step (mark id) s h = mark-Step s h id
apply_op-Step (increment id) s h = increment-Step s h id
apply_op-Step (requeue now stamps run_id) s h = requeue-Step now stamps run_id s h
apply_op-Step (reclaim stamp run_id worker_id n) s h = reclaim-Step s h stamp run_id worker_id n

-- In a table where each task stands under its own id, once, every method, raising or not, keeps
-- every task that is there, under its key, and moves its status by one listed transition, by none,
-- or by giving up a lease (to PENDING or FAILED); a task that had ended keeps everything but its
-- attempt count.
pub apply_op_moves :
    (o : Op) (s : Store)
    → IsKeyed s.tasks
    → (k : String) (t : TaskRecord) → lookup k s.tasks ≡ some t
    → (t' : TaskRecord) × (lookup k (apply_op o s).tasks ≡ some t')
      × Move t.status t'.status
      × ((is_terminal t.status ≡ false) ⊎ (t' ≡ record t { attempt_count = t'.attempt_count }))
apply_op_moves o s h k t found =
    let (t', there, move, kept) = (apply_op-Step o s h).0 k t found in
    elim (Bool-cases (is_terminal t.status)) [
      | inl ended ↦ (t', there, move, inr (kept ended))
      | inr alive ↦ (t', there, move, inl alive)
    ]

-- Every sequence of calls keeps each task under its own id, once.
pub apply_all-IsKeyed :
    (os : List Op) (s : Store) → IsKeyed s.tasks → IsKeyed (apply_all os s).tasks
unfolding apply_all
apply_all-IsKeyed [] s h = h
apply_all-IsKeyed (o ∷ os) s h = apply_all-IsKeyed os (apply_op o s) (apply_op-Step o s h).1

ap-attempts :
    (u t : TaskRecord) (n : ℕ)
    → u ≡ record t { attempt_count = u.attempt_count }
    → ◌≡◌ {A = TaskRecord} (record u { attempt_count = n }) (record t { attempt_count = n })
ap-attempts u t n e = ap (λ (v : TaskRecord). record v { attempt_count = n }) e

-- A task that has ended is final: after any sequence of calls of the store's methods it is still
-- there, with the same status, result, error and lease, whatever else happened.
pub apply_all_terminal_final :
    (os : List Op) (s : Store) (k : String) (t : TaskRecord)
    → IsKeyed s.tasks
    → lookup k s.tasks ≡ some t
    → is_terminal t.status ≡ true
    → (t' : TaskRecord) × (lookup k (apply_all os s).tasks ≡ some t')
      × (t' ≡ record t { attempt_count = t'.attempt_count })
unfolding apply_all
apply_all_terminal_final [] s k t h found ended = (t, found, refl)
apply_all_terminal_final (o ∷ os) s k t h found ended =
    let (u, now_at, _, kept) = (apply_op-Step o s h).0 k t found in
    let (t', later, kept') =
      apply_all_terminal_final os (apply_op o s) k u (apply_op-Step o s h).1 now_at
        (rw (kept ended) ended) in
    (t', later, kept' ∙ (ap-attempts u t t'.attempt_count (kept ended)))
