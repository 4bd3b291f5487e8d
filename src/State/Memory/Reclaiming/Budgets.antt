-- ===== src/State/Memory/Reclaiming/Budgets.antt =====
-- How often workers that die hand a task back (state/memory_store.py).
use fine_tune_harness.Base.{
  ◌-◌, ℕ, ◌+◌, ◌≤◌, ◌<◌, String, false, none, some, List, [], ◌∷◌, ◌++◌, ◌≡◌, refl, ◌⊎◌, inl, inr,
  arith, leb, ◌==◌, if◌then◌else◌, eq_iff, Bool-cases, Option-cases, lookup, values,
}
use fine_tune_harness.State.Value.{Fields}
use fine_tune_harness.Base.{has_key}
use fine_tune_harness.Effects.{Result-cases}
use fine_tune_harness.State.Memory.Moves.{
  Op, create, update, lease, mark, increment, requeue, reclaim, apply_op,
}
use fine_tune_harness.Orchestrator.Lifecycle.{task_is, ensure_task_transition}
use fine_tune_harness.Base.{suc, Bool, Option, ◌||◌, ◌&&◌, lookup-insert}
use fine_tune_harness.State.Models.{
  TaskStatus, pending, leased, running, failed, TaskRecord, EventRecord,
}
use fine_tune_harness.State.Memory.{
  Store, Stamp, first_such, create_task, update_task_status, mark_task_running,
  increment_task_attempts, lease_next_pending_task, has_expired_lease, is_leaseable, list_tasks,
  append_event, put_task, put_task_at,
}
use fine_tune_harness.State.Memory.Recovery.{
  reclaim_dead_worker, requeue_each, requeue_expired_leases, is_held, count_events,
}
use fine_tune_harness.State.Memory.Reclaiming.{
  reclaims, count_events-append, count_events-abandoned, count_events-reclaimed,
}

-- A call of reclaim_dead_worker, or any call of another method of the store.
pub data Turn : Type 0 where
  death : Stamp → (run_id worker_id : String) → Turn
  call : Op → Turn

unfoldable pub take_turn : (max_reclaims : ℕ) → Turn → Store → Store
unfolding apply_op
take_turn n (death stamp run_id worker_id) s = (reclaim_dead_worker stamp run_id worker_id n s).1
take_turn n (call o) s = apply_op o s

-- The task was LEASED or RUNNING, and is PENDING.
unfoldable pub is_requeued : (before after : Option TaskRecord) → Bool
unfolding task_is
is_requeued (some t) (some t') =
    (task_is t.status leased || task_is t.status running) && task_is t'.status pending
is_requeued _ _ = false

-- How many deaths of the sequence requeued the task.
unfoldable pub requeues : (max_reclaims : ℕ) → (task_id : String) → List Turn → Store → ℕ
unfolding is_requeued take_turn
requeues n task_id [] s = 0
requeues n task_id (death stamp run_id worker_id ∷ turns) s =
    let after = take_turn n (death stamp run_id worker_id) s in
    let rest = requeues n task_id turns after in
    if is_requeued (lookup task_id s.tasks) (lookup task_id after.tasks) then suc rest else rest
requeues n task_id (call o ∷ turns) s = requeues n task_id turns (take_turn n (call o) s)

same-is_requeued : (o : Option TaskRecord) → is_requeued o o ≡ false
unfolding is_requeued task_is
same-is_requeued none = refl
same-is_requeued (some t) = ground arith

failed-is_requeued :
    (o : Option TaskRecord) (t : TaskRecord) → t.status ≡ failed → is_requeued o (some t) ≡ false
unfolding is_requeued task_is
failed-is_requeued none t e = refl
failed-is_requeued (some u) t e = ground arith

death-lem :
    (stamp : Stamp) (run_id worker_id : String) (n : ℕ) (s : Store) (task_id : String)
    → ((is_requeued
            (lookup task_id s.tasks)
            (lookup task_id (reclaim_dead_worker stamp run_id worker_id n s).1.tasks)
          ≡ false)
        × (reclaims task_id s
            ≤ reclaims task_id (reclaim_dead_worker stamp run_id worker_id n s).1))
      ⊎ ((reclaims task_id s < n)
          × (reclaims task_id (reclaim_dead_worker stamp run_id worker_id n s).1
              ≡ reclaims task_id s + 1))
unfolding reclaim_dead_worker
death-lem stamp run_id worker_id n s task_id =
    elim (Option-cases (first_such (is_held run_id worker_id) (values s.tasks))) [
      | inl nothing ↦ inl (
        rw (nothing, reclaim_dead_worker) (same-is_requeued (lookup task_id s.tasks)),
        rw (nothing, reclaim_dead_worker) (ground arith),
      )
      | inr (t, hit) ↦ elim (Bool-cases (leb n (reclaims t.task_id s))) [
        | inl spent ↦ inl (
          rw (hit, spent, reclaim_dead_worker)
              (rw lookup-insert (elim (Bool-cases (t.task_id == task_id)) [
                | inl here ↦ rw here (failed-is_requeued (lookup task_id s.tasks) _ refl)
                | inr other ↦ rw other (same-is_requeued (lookup task_id s.tasks))
              ])),
          rw (hit, spent, reclaim_dead_worker) (rw count_events-abandoned (ground arith)),
        )
        | inr left ↦ elim (Bool-cases (t.task_id == task_id)) [
          | inl here ↦ inr (
            ground (arith, eq_iff t.task_id task_id),
            rw (hit, left, reclaim_dead_worker) (rw count_events-reclaimed (rw here refl)),
          )
          | inr other ↦ inl (
            rw (hit, left, reclaim_dead_worker)
                (rw lookup-insert (rw other (same-is_requeued (lookup task_id s.tasks)))),
            rw (hit, left, reclaim_dead_worker)
                (rw count_events-reclaimed (rw other (ground arith))),
          )
        ]
      ]
    ]

appended-lem :
    (task_id : String) (es : List EventRecord) (e : EventRecord)
    → count_events task_id "lease_reclaimed" es
      ≤ count_events task_id "lease_reclaimed" (es ++ e ∷ [])
appended-lem task_id es e = rw (count_events-append task_id "lease_reclaimed" es e) (ground arith)

le_trans : {a b c : ℕ} → a ≤ b → b ≤ c → a ≤ c
le_trans h k = omega arith

requeue-lem :
    (now : ℕ) (stamps : ℕ → Stamp) (run_id task_id : String) (count : ℕ) (ts : List TaskRecord)
    (s : Store)
    → reclaims task_id s ≤ reclaims task_id (requeue_each now stamps run_id count ts s).1
unfolding requeue_each append_event put_task
requeue-lem now stamps run_id task_id count [] s = ground arith
requeue-lem now stamps run_id task_id count (t ∷ ts) s =
    elim (Bool-cases (t.run_id == run_id && has_expired_lease now t)) [
      | inr kept ↦ rw (kept, requeue_each) (requeue-lem now stamps run_id task_id count ts s)
      | inl due ↦
          rw (due, requeue_each)
            (le_trans (appended-lem task_id s.events _)
              (requeue-lem now stamps run_id task_id (count + 1) ts _))
    ]

module _ (task_id : String) (s : Store) where
  update-lem :
      (id : String) (status : TaskStatus) (result : Option Fields) (error : Option String)
      → reclaims task_id s ≤ reclaims task_id (update_task_status id status result error s).1
  unfolding update_task_status put_task_at
  update-lem id status result error = elim (Option-cases (lookup id s.tasks)) [
    | inl missing ↦ rw (missing, update_task_status) (ground arith)
    | inr (t, found) ↦ elim (Result-cases (ensure_task_transition t.status status)) [
      | inl (e, refused) ↦ rw (found, refused, update_task_status) (ground arith)
      | inr (_, allowed) ↦ rw (found, allowed, update_task_status) (ground arith)
    ]
  ]

  mark-lem : (id : String) → reclaims task_id s ≤ reclaims task_id (mark_task_running id s).1
  unfolding mark_task_running put_task_at
  mark-lem id = elim (Option-cases (lookup id s.tasks)) [
    | inl missing ↦ rw (missing, mark_task_running) (ground arith)
    | inr (t, found) ↦ elim (Bool-cases (task_is t.status leased)) [
      | inl is_leased ↦ rw (found, is_leased, mark_task_running) (ground arith)
      | inr other ↦ rw (found, other, mark_task_running) (ground arith)
    ]
  ]

  increment-lem :
      (id : String) → reclaims task_id s ≤ reclaims task_id (increment_task_attempts id s).1
  unfolding increment_task_attempts put_task_at
  increment-lem id = elim (Option-cases (lookup id s.tasks)) [
    | inl missing ↦ rw (missing, increment_task_attempts) (ground arith)
    | inr (t, found) ↦ rw (found, increment_task_attempts) (ground arith)
  ]

  create-lem : (t : TaskRecord) → reclaims task_id s ≤ reclaims task_id (create_task t s).1
  unfolding create_task
  create-lem t = elim (Bool-cases (has_key t.task_id s.tasks)) [
    | inl there ↦ rw (there, create_task) (ground arith)
    | inr fresh ↦ rw (fresh, create_task) (ground arith)
  ]

  lease-lem :
      (now at : ℕ) (stamp : Stamp) (run_id worker_id : String) (seconds : ℕ)
      → reclaims task_id s
        ≤ reclaims task_id (lease_next_pending_task now at stamp run_id worker_id seconds s).1
  unfolding lease_next_pending_task put_task append_event
  lease-lem now at stamp run_id worker_id seconds =
      elim (Option-cases (first_such (is_leaseable now) (list_tasks run_id s))) [
        | inl nothing ↦ rw (nothing, lease_next_pending_task) (ground arith)
        | inr (t, found) ↦ elim (Bool-cases (has_expired_lease now t)) [
          | inl late ↦ rw (found, late, lease_next_pending_task) (appended-lem task_id s.events _)
          | inr kept ↦ rw (found, kept, lease_next_pending_task) (ground arith)
        ]
      ]

  reclaim-lem :
      (stamp : Stamp) (run_id worker_id : String) (n : ℕ)
      → reclaims task_id s ≤ reclaims task_id (reclaim_dead_worker stamp run_id worker_id n s).1
  reclaim-lem stamp run_id worker_id n = elim (death-lem stamp run_id worker_id n s task_id) [
    | inl (_, kept) ↦ kept
    | inr (_, more) ↦ omega arith
  ]

  call-lem : (o : Op) → reclaims task_id s ≤ reclaims task_id (apply_op o s)
  unfolding apply_op requeue_expired_leases
  call-lem (create t) = create-lem t
  call-lem (update id status result error) = update-lem id status result error
  call-lem (lease now at stamp run_id worker_id seconds) =
      lease-lem now at stamp run_id worker_id seconds
  call-lem (mark id) = mark-lem id
  call-lem (increment id) = increment-lem id
  call-lem (requeue now stamps run_id) = requeue-lem now stamps run_id task_id 0 (values s.tasks) s
  call-lem (reclaim stamp run_id worker_id n) = reclaim-lem stamp run_id worker_id n

left-lem :
    (n : ℕ) (turns : List Turn) (s : Store) (task_id : String)
    → requeues n task_id turns s ≤ n - reclaims task_id s
unfolding requeues take_turn
left-lem n [] s task_id = omega arith
left-lem n (call o ∷ turns) s task_id =
    let later = left-lem n turns (apply_op o s) task_id in
    let more = call-lem task_id s o in omega arith
left-lem n (death stamp run_id worker_id ∷ turns) s task_id =
    let s' = (reclaim_dead_worker stamp run_id worker_id n s).1 in
    let later = left-lem n turns s' task_id in
    elim (death-lem stamp run_id worker_id n s task_id) [
      | inl (kept, more) ↦ rw (kept, requeues) (omega arith)
      | inr (under, more) ↦
          elim (Bool-cases (is_requeued (lookup task_id s.tasks) (lookup task_id s'.tasks))) [
            | inl back ↦ rw (back, requeues) (omega arith)
            | inr other ↦ rw (other, requeues) (omega arith)
          ]
    ]

-- However many workers die, and whatever other calls of the store come between, leases of the same task
-- among them, the calls of reclaim_dead_worker with one budget take a task from LEASED or RUNNING back
-- to PENDING at most that many times.
pub requeues_bounded :
    (n : ℕ) (turns : List Turn) (s : Store) (task_id : String) → requeues n task_id turns s ≤ n
requeues_bounded n turns s task_id = let left = left-lem n turns s task_id in omega arith
