-- ===== src/Orchestrator/Runner/Targets.antt =====
-- Which status the tasks of a run ask for (the aggregation in orchestrator/runner.py).
use fine_tune_harness.Base.{
  String, true, false, some, List, [], ◌∷◌, ◌≡◌, ◌≢◌, ◌↔◌, refl, ◌⊎◌, inl, inr, arith, Bool-cases,
  lookup,
}
use fine_tune_harness.Effects.{raise, value_error}
use fine_tune_harness.World.{Env, World}
use fine_tune_harness.State.Models.{
  RunStatus, validated, completed, TaskStatus, RunRecord, TaskRecord,
}
use fine_tune_harness.State.Memory.{list_tasks}
use fine_tune_harness.Orchestrator.Lifecycle.{task_in, run_is, run_in, allowed_run_transitions}
use fine_tune_harness.Orchestrator.Runner.{
  any_in, all_in, any_attempted, target_status, unsuccessful, in_progress, only_succeeded,
  refresh_run_status,
}
use fine_tune_harness.Orchestrator.Runner.Refresh.{refresh_run_status_refuses}

-- Every task of the list satisfies `P`.
abbrev pub All : (TaskRecord → Type 0) → List TaskRecord → Type 0
All P [] = Unit
All P (t ∷ ts) = P t × All P ts

abbrev pub Succeeded : TaskRecord → Type 0
Succeeded t = t.status ≡ TaskStatus.succeeded

-- Ended, and not SUCCEEDED.
abbrev pub Lost : TaskRecord → Type 0
Lost t =
    (t.status ≡ TaskStatus.failed)
    ⊎ (t.status ≡ TaskStatus.timed_out)
    ⊎ (t.status ≡ TaskStatus.degenerate)
    ⊎ (t.status ≡ TaskStatus.cancelled)

abbrev lost : List TaskStatus
lost = TaskStatus.cancelled ∷ unsuccessful

Succeeded-in : (t : TaskRecord) → (task_in t.status only_succeeded ≡ true) ↔ Succeeded t
unfolding task_in
Succeeded-in t = (λ h. ground arith, λ h. ground arith)

Lost-in : (t : TaskRecord) → (task_in t.status lost ≡ true) ↔ Lost t
unfolding task_in
Lost-in t = (λ h. ground arith, λ h. ground arith)

module _ (P : TaskRecord → Type 0) (set : List TaskStatus)
    (in_set : (t : TaskRecord) → (task_in t.status set ≡ true) ↔ P t) where
  all_in-All : (ts : List TaskRecord) → all_in set ts ≡ true → All P ts
  unfolding all_in
  all_in-All [] h = tt
  all_in-All (t ∷ ts) h = ground (arith, in_set t, all_in-All ts)

  All-all_in : (ts : List TaskRecord) → All P ts → all_in set ts ≡ true
  unfolding all_in
  All-all_in [] h = refl
  All-all_in (t ∷ ts) h = ground (arith, in_set t, All-all_in ts h.1)

-- A run is COMPLETED exactly when it has tasks and every one of them SUCCEEDED: a task that failed,
-- timed out, was degenerate or is unfinished keeps the run from it.
pub target_status_completed :
    (ts : List TaskRecord) → (target_status ts ≡ completed) ↔ ((ts ≢ []) × All Succeeded ts)
unfolding target_status
target_status_completed [] = (λ h. cc, λ h. absurd (h.0 refl))
target_status_completed (t ∷ ts) =
    let to = all_in-All Succeeded only_succeeded Succeeded-in (t ∷ ts) in
    let from = All-all_in Succeeded only_succeeded Succeeded-in (t ∷ ts) in
    elim (Bool-cases (all_in only_succeeded (t ∷ ts))) [
      | inl every ↦ (λ h. (λ e. cc, to every), λ h. rw every refl)
      | inr some_other ↦ (λ h. absurd (ground arith), λ h. absurd (ground (arith, from h.1)))
    ]

any_in-Lost :
    (set : List TaskStatus)
    → ((t : TaskRecord) → Lost t → task_in t.status set ≡ false)
    → (ts : List TaskRecord) → All Lost ts
    → any_in set ts ≡ false
unfolding any_in
any_in-Lost set apart [] h = refl
any_in-Lost set apart (t ∷ ts) h = ground (arith, apart t h.0, any_in-Lost set apart ts h.1)

Lost-not_succeeded : (t : TaskRecord) → Lost t → task_in t.status only_succeeded ≡ false
unfolding task_in
Lost-not_succeeded t h = ground arith

Lost-not_in_progress : (t : TaskRecord) → Lost t → task_in t.status in_progress ≡ false
unfolding task_in
Lost-not_in_progress t h = ground arith

-- A run is FAILED exactly when it has tasks and every one of them failed, timed out, was degenerate
-- or was cancelled.
pub target_status_failed :
    (ts : List TaskRecord) → (target_status ts ≡ RunStatus.failed) ↔ ((ts ≢ []) × All Lost ts)
unfolding target_status
target_status_failed [] = (λ h. cc, λ h. absurd (h.0 refl))
target_status_failed (t ∷ ts) =
    let to = all_in-All Lost lost Lost-in (t ∷ ts) in
    let from = All-all_in Lost lost Lost-in (t ∷ ts) in
    (
      λ h. (λ e. cc, ground (arith, to)),
      λ h. ground (
        arith,
        from h.1,
        any_in-Lost only_succeeded Lost-not_succeeded (t ∷ ts) h.1,
        any_in-Lost in_progress Lost-not_in_progress (t ∷ ts) h.1,
      ),
    )

-- SUCCEEDED or CANCELLED.
abbrev pub Settled : TaskRecord → Type 0
Settled t = (t.status ≡ TaskStatus.succeeded) ⊎ (t.status ≡ TaskStatus.cancelled)

Settled-not_unsuccessful : (t : TaskRecord) → Settled t → task_in t.status unsuccessful ≡ false
unfolding task_in
Settled-not_unsuccessful t h = ground arith

any_in-Settled : (ts : List TaskRecord) → All Settled ts → any_in unsuccessful ts ≡ false
unfolding any_in
any_in-Settled [] h = refl
any_in-Settled (t ∷ ts) h = ground (arith, Settled-not_unsuccessful t h.0, any_in-Settled ts h.1)

any_in-more :
    (ts : List TaskRecord)
    → any_in only_succeeded ts ≡ true
    → (any_in (TaskStatus.running ∷ TaskStatus.leased ∷ TaskStatus.succeeded ∷ []) ts ≡ true)
      × (all_in lost ts ≡ false)
unfolding any_in all_in task_in
any_in-more [] h = cc
any_in-more (t ∷ ts) h = ground (arith, any_in-more ts)

-- A run whose tasks have all ended, some SUCCEEDED and some CANCELLED, asks for RUNNING: no refresh
-- ever ends it.
pub target_status_cancelled_tasks :
    (ts : List TaskRecord)
    → All Settled ts
    → any_in only_succeeded ts ≡ true
    → all_in only_succeeded ts ≡ false
    → target_status ts ≡ RunStatus.running
unfolding target_status
target_status_cancelled_tasks [] all_settled some_succeeded some_cancelled = cc
target_status_cancelled_tasks (t ∷ ts) all_settled some_succeeded some_cancelled =
    let (busy, not_lost) = any_in-more (t ∷ ts) some_succeeded in
    ground (arith, any_in-Settled (t ∷ ts) all_settled)

-- PENDING, and never attempted.
abbrev pub Fresh : TaskRecord → Type 0
Fresh t = (t.status ≡ TaskStatus.pending) × (t.attempt_count ≡ 0)

Fresh-lem :
    (ts : List TaskRecord)
    → All Fresh ts
    → (any_in (TaskStatus.running ∷ TaskStatus.leased ∷ TaskStatus.succeeded ∷ []) ts ≡ false)
      × (any_in unsuccessful ts ≡ false)
      × (any_attempted ts ≡ false)
unfolding any_in any_attempted task_in
Fresh-lem [] h = (refl, refl, refl)
Fresh-lem (t ∷ ts) h = ground (arith, Fresh-lem ts h.1)

target_status-Fresh :
    (t : TaskRecord) (ts : List TaskRecord)
    → All Fresh (t ∷ ts)
    → target_status (t ∷ ts) ≡ validated
unfolding target_status all_in task_in
target_status-Fresh t ts h = ground (arith, Fresh-lem (t ∷ ts) h)

-- A run that is RUNNING and whose tasks are all PENDING and unattempted again (their leases were
-- given back before the first attempt) cannot be refreshed: ValueError is raised, nothing changes.
pub refresh_run_status_stuck :
    {E : Type 0} (env : Env) (run_id : String) (w : World E) (run : RunRecord) (t : TaskRecord)
    (ts : List TaskRecord)
    → lookup run_id w.store.runs ≡ some run
    → run.status ≡ RunStatus.running
    → list_tasks run_id w.store ≡ t ∷ ts
    → All Fresh (t ∷ ts)
    → refresh_run_status env run_id w ≡ (raise value_error, w)
unfolding run_is run_in allowed_run_transitions
refresh_run_status_stuck env run_id w run t ts at busy tasks fresh =
    refresh_run_status_refuses env run_id w run at
      (rw (tasks, target_status-Fresh t ts fresh, busy) refl)
