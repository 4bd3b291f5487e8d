-- ===== src/Executor/Worker/Memory.antt =====
-- What the budget for GPU out-of-memory errors does (LocalWorker._handle_oom in executor/worker.py).
use fine_tune_harness.Base.{
  ℕ, ◌+◌, ◌<◌, String, true, false, none, some, ◌≡◌, refl, ◌∙◌, arith, lookup, insert, ltb, leb,
}
use fine_tune_harness.Effects.{
  Exception, Result, return, raise, throw, and_then, ◌>>=◌, ◌>>◌, message,
}
use fine_tune_harness.World.{Env, World, Act, ask}
use fine_tune_harness.Base.Int.{pos}
use fine_tune_harness.State.Value.{int, str, end, field}
use fine_tune_harness.Orchestrator.Runner.{refresh_run_status}
use fine_tune_harness.State.Models.{RunStatus, TaskStatus, TaskRecord}
use fine_tune_harness.State.Memory.Recovery.{count_events, list_events}
use fine_tune_harness.Orchestrator.Lifecycle.{ensure_task_transition}
use fine_tune_harness.Executor.Oom.{is_oom_error}
use fine_tune_harness.Executor.Session.{Worker, status_changed}
use fine_tune_harness.Executor.Worker.{handle_oom, on_failure, store_status, task_event}
use fine_tune_harness.Executor.Worker.Frames.{
  Keeps-bind, Keeps-throw, refresh-Keeps, status_changed-Keeps, task_event-Keeps,
}
use fine_tune_harness.Executor.Worker.Settling.{settled, Leaves, Leaves-bind, store-Leaves}

-- The step raises whatever the world is.
record Raises {E A : Type 0} (m : Act E A) : Type 0 where
  thrown : (w : World E) → (e : Exception) × ((m w).0 ≡ raise e)

module _ {E : Type 0} where
  Raises-bind :
      {A B : Type 0} (m : Act E A) (f : A → Act E B) → ((a : A) → Raises (f a)) → Raises (m >>= f)
  Raises-bind m f rf = record { thrown = λ w. then_raises f rf (m w).0 (m w).1 }
    where
      then_raises :
          {A B : Type 0} (f : A → Act E B)
          → ((a : A) → Raises (f a))
          → (r : Result A) (w : World E) → (e : Exception) × ((and_then r f w).0 ≡ raise e)
      then_raises f rf (return a) w = (rf a).thrown w
      then_raises f rf (raise e) w = (e, refl)

  Raises-throw : {A : Type 0} (e : Exception) → Raises {E = E} {A = A} (throw e)
  Raises-throw e = record { thrown = λ w. (e, refl) }

  -- What follows a step that raises does not run.
  skip-lem :
      {A B : Type 0} (m : Act E A) (f : A → Act E B) (w : World E)
      → Raises m
      → ((m >>= f) w).1.store.tasks ≡ (m w).1.store.tasks
  skip-lem m f w rm = skipped f (m w).0 (m w).1 (rm.thrown w).1
    where
      skipped :
          {A B : Type 0} (f : A → Act E B) (r : Result A) (w : World E) {e : Exception}
          → r ≡ raise e
          → (and_then r f w).1.store.tasks ≡ w.store.tasks
      skipped f r w h = rw h refl

module _ {E : Type 0} (env : Env) (wk : Worker E) (run_id : String) (task t working : TaskRecord)
    (attempt : ℕ) (w : World E) (stored : lookup task.task_id w.store.tasks ≡ some t)
    (busy : t.status ≡ TaskStatus.running) (e : Exception) where
  -- What _handle_oom does while the budget lasts, from its last step to the first.
  abbrev announce_oom : RunStatus → Act E (Unit {0})
  announce_oom status = status_changed env wk run_id status >> throw e

  abbrev refresh_oom : Act E (Unit {0})
  refresh_oom = refresh_run_status env run_id >>= announce_oom

  abbrev record_oom : ℕ → Act E (Unit {0})
  record_oom prior =
      task_event env wk run_id task "task_oom_requeued" attempt (
        field "oom_attempt" (int (pos (prior + 1))) (
          field "max_oom_retries" (int (pos wk.max_oom_retries))
            (field "error" (str (message e)) end)))
      >> refresh_oom

  abbrev requeue_oom : ℕ → Act E (Unit {0})
  requeue_oom prior =
      store_status env wk run_id task TaskStatus.pending none (some (message e)) >> record_oom prior

  requeue-Leaves :
      (prior : ℕ)
      → Leaves
          (requeue_oom prior)
          w
          (insert task.task_id (settled t TaskStatus.pending none (some (message e))) w.store.tasks)
  unfolding ensure_task_transition
  requeue-Leaves prior =
      Leaves-bind _ _ w _
        (store-Leaves env wk run_id task t working attempt w stored busy TaskStatus.pending none
          (some (message e)) refl)
        λ _. Keeps-bind _ _ (task_event-Keeps env wk run_id task _ _ _) λ _.
          Keeps-bind _ _ (refresh-Keeps env run_id)
            λ status. Keeps-bind _ _ (status_changed-Keeps env wk run_id status) λ _. Keeps-throw e

  requeue-Raises : (prior : ℕ) → Raises (requeue_oom prior)
  requeue-Raises prior =
      Raises-bind _ (λ _. record_oom prior)
        λ _.
          Raises-bind _ (λ _. refresh_oom)
            λ _. Raises-bind (refresh_run_status env run_id) announce_oom λ status.
              Raises-bind (status_changed env wk run_id status) (λ _. throw e) λ _. Raises-throw e

  -- While fewer than `max_oom_retries` requeues of the task are recorded, an out-of-memory error makes
  -- the task PENDING again, whatever its attempts are, with the message and no lease, and no other
  -- task changes.
  pub on_failure_requeues :
      is_oom_error e ≡ true
      → count_events task.task_id "task_oom_requeued" (list_events run_id w.store)
        < wk.max_oom_retries
      → (on_failure env wk run_id task working attempt e w).1.store.tasks
        ≡ insert task.task_id (settled t TaskStatus.pending none (some (message e))) w.store.tasks
  unfolding on_failure handle_oom ask
  on_failure_requeues oom left =
      let prior = count_events task.task_id "task_oom_requeued" (list_events run_id w.store) in
      rw (budget, oom, spent, on_failure, handle_oom)
        (skip-lem (requeue_oom prior) _ w (requeue-Raises prior) ∙ (requeue-Leaves prior).left)
    where
      budget : ltb 0 wk.max_oom_retries ≡ true
      budget = ground arith

      spent :
          leb wk.max_oom_retries
            (count_events task.task_id "task_oom_requeued" (list_events run_id w.store))
          ≡ false
      spent = ground arith
