-- ===== src/Executor/Worker/Frames.antt =====
-- The steps of the worker (executor/worker.py) that leave the table of tasks alone, raising or not.
use fine_tune_harness.Base.{
  ℕ, String, Bool, true, false, Option, none, some, List, [], ◌∷◌, ◌≡◌, refl, ◌∙◌, inl, inr, arith,
  Bool-cases, Option-cases, if◌then◌else◌,
}
use fine_tune_harness.Effects.{Exception, Result, return, raise, pure, throw, lift, and_then, ◌>>=◌}
use fine_tune_harness.World.{Env, World, Act, on_store, record_event, utc_now}
use fine_tune_harness.State.Value.{Fields}
use fine_tune_harness.State.Models.{RunStatus, RunRecord, TaskRecord, ArtifactRecord}
use fine_tune_harness.State.Memory.{
  Store, get_run, list_tasks, append_event, update_run_status, update_run_finished_at,
}
use fine_tune_harness.State.Memory.Recovery.{create_artifact}
use fine_tune_harness.Orchestrator.Lifecycle.{run_is}
use fine_tune_harness.Orchestrator.Hooks.{Call}
use fine_tune_harness.Orchestrator.Runner.{
  status_event, target_status, enter_running, reload, step_through_running, stamp_finished, move_to,
  change_status, refresh_run_status,
}
use fine_tune_harness.Executor.Session.{
  Worker, fire_hooks, note_hooks, status_changed, seed_run, apply_seed, write_artifact,
  add_artifacts, register_artifacts,
}
use fine_tune_harness.Executor.Worker.{task_event, report}

-- The step leaves every task as it is.
pub record Keeps {E A : Type 0} (m : Act E A) : Type 0 where
  pub at : (w : World E) → (m w).1.store.tasks ≡ w.store.tasks

module _ {E : Type 0} where
  pub Keeps-bind :
      {A B : Type 0} (m : Act E A) (f : A → Act E B)
      → Keeps m
      → ((a : A) → Keeps (f a))
      → Keeps (m >>= f)
  Keeps-bind m f km kf = record { at = λ w. then_keeps f kf (m w).0 (m w).1 ∙ km.at w }
    where
      then_keeps :
          {A B : Type 0} (f : A → Act E B)
          → ((a : A) → Keeps (f a))
          → (r : Result A) (w : World E) → (and_then r f w).1.store.tasks ≡ w.store.tasks
      then_keeps f kf (return a) w = (kf a).at w
      then_keeps f kf (raise e) w = refl

  pub Keeps-pure : {A : Type 0} (a : A) → Keeps {E = E} (pure a)
  Keeps-pure a = record { at = λ w. refl }

  pub Keeps-throw : {A : Type 0} (e : Exception) → Keeps {E = E} {A = A} (throw e)
  Keeps-throw e = record { at = λ w. refl }

  pub Keeps-lift : {A : Type 0} (r : Result A) → Keeps {E = E} (lift r)
  unfolding lift
  Keeps-lift r = record { at = λ w. refl }

  pub Keeps-if :
      {A : Type 0} (b : Bool) (m n : Act E A) → Keeps m → Keeps n → Keeps (if b then m else n)
  Keeps-if true m n km kn = km
  Keeps-if false m n km kn = kn

module _ {E : Type 0} (env : Env) where
  pub record_event-Keeps :
      (run_id : String) (task_id : Option String) (kind : String) (payload : Fields)
      → Keeps {E = E} (record_event env run_id task_id kind payload)
  unfolding record_event append_event
  record_event-Keeps run_id task_id kind payload = record { at = λ w. refl }

  update_run-Keeps :
      (run_id : String) (st : RunStatus) → Keeps {E = E} (on_store (update_run_status run_id st))
  unfolding on_store update_run_status
  update_run-Keeps run_id st = record { at = λ w. ground arith }

  finished-Keeps :
      (run_id : String) (n : ℕ) → Keeps {E = E} (on_store (update_run_finished_at run_id n))
  unfolding on_store update_run_finished_at
  finished-Keeps run_id n = record { at = λ w. ground arith }

  reload-Keeps : (run_id : String) → Keeps {E = E} (reload env run_id)
  unfolding reload
  reload-Keeps run_id = record { at = λ w. ground arith }

  utc_now-Keeps : Keeps {E = E} (utc_now env)
  unfolding utc_now
  utc_now-Keeps = record { at = λ w. refl }

  status_event-Keeps :
      (run_id : String) (a b : RunStatus) → Keeps {E = E} (status_event env run_id a b)
  unfolding status_event
  status_event-Keeps run_id a b = record_event-Keeps _ _ _ _

  enter-Keeps : (run : RunRecord) (run_id : String) → Keeps {E = E} (enter_running env run run_id)
  unfolding enter_running
  enter-Keeps run run_id = Keeps-bind _ _ (Keeps-lift _) λ _.
      Keeps-bind _ _ (update_run-Keeps run_id _)
        λ _. Keeps-bind _ _ (status_event-Keeps run_id _ _) λ _. reload-Keeps run_id

  step-Keeps :
      (run : RunRecord) (target : RunStatus) (run_id : String)
      → Keeps {E = E} (step_through_running env run target run_id)
  unfolding step_through_running
  step-Keeps run target run_id = Keeps-if _ _ _ (enter-Keeps run run_id) (Keeps-pure run)

  stamp-Keeps :
      (run : RunRecord) (target : RunStatus) (run_id : String)
      → Keeps {E = E} (stamp_finished env run target run_id)
  unfolding stamp_finished
  stamp-Keeps run target run_id = Keeps-if _ _ _ (stamp-now run.finished_at) (Keeps-pure tt)
    where
      stamp-now :
          (o : Option ℕ)
          → Keeps {E = E} (elim o [
            | none ↦
                utc_now env >>= λ finished_at. on_store (update_run_finished_at run_id finished_at)
            | some _ ↦ pure tt
          ])
      stamp-now none = Keeps-bind _ _ utc_now-Keeps (λ n. finished-Keeps run_id n)
      stamp-now (some _) = Keeps-pure tt

  move-Keeps :
      (run : RunRecord) (target : RunStatus) (run_id : String)
      → Keeps {E = E} (move_to env run target run_id)
  unfolding move_to
  move-Keeps run target run_id = Keeps-bind _ _ (Keeps-lift _) λ _.
      Keeps-bind _ _ (update_run-Keeps run_id _) λ _.
        Keeps-bind _ _ (stamp-Keeps run target run_id)
          λ _. Keeps-bind _ _ (status_event-Keeps run_id _ _) λ _. Keeps-pure target

  change-Keeps :
      (run : RunRecord) (target : RunStatus) (run_id : String)
      → Keeps {E = E} (change_status env run target run_id)
  unfolding change_status
  change-Keeps run target run_id =
      Keeps-bind _ _ (step-Keeps run target run_id) λ now. move-Keeps now target run_id

  pub refresh-Keeps : (run_id : String) → Keeps {E = E} (refresh_run_status env run_id)
  unfolding refresh_run_status
  refresh-Keeps run_id = record {
    at = λ w. elim (Option-cases (get_run run_id w.store)) [
      | inl unknown ↦ rw (unknown, refresh_run_status) refl
      | inr (run, known) ↦
          let target = target_status (list_tasks run_id w.store) in
          elim (Bool-cases (run_is target run.status)) [
            | inl same ↦ rw (known, same, refresh_run_status) refl
            | inr other ↦
                rw (known, other, refresh_run_status) ((change-Keeps run target run_id).at w)
          ]
    ];
  }

add-lem : (made : List ArtifactRecord) (s : Store) → (add_artifacts made s).tasks ≡ s.tasks
unfolding add_artifacts create_artifact
add-lem [] s = refl
add-lem (a ∷ made) s = add-lem made (create_artifact a s)

register-lem :
    {E : Type 0} (r : Result (List ArtifactRecord)) (x : E) (w : World E)
    → (register_artifacts r x w).1.store.tasks ≡ w.store.tasks
unfolding register_artifacts
register-lem (raise e) x w = refl
register-lem (return made) x w = add-lem made w.store

module _ {E : Type 0} (env : Env) (wk : Worker E) where
  pub fire-Keeps : (point : String) (call : Call) → Keeps (fire_hooks env wk point call)
  unfolding fire_hooks
  fire-Keeps point call = record { at = λ w. refl }

  pub note-Keeps :
      (run_id : String) (task : TaskRecord) (point : String)
      → Keeps (note_hooks env wk run_id task point)
  unfolding note_hooks
  note-Keeps run_id task point = record_event-Keeps env _ _ _ _

  pub status_changed-Keeps :
      (run_id : String) (status : RunStatus) → Keeps (status_changed env wk run_id status)
  unfolding status_changed
  status_changed-Keeps run_id status = fire-Keeps _ _

  pub seed-Keeps : (run_id : String) → Keeps (seed_run env wk run_id)
  unfolding seed_run apply_seed
  seed-Keeps run_id = record { at = λ w. ground arith }

  pub artifact-Keeps :
      (task : TaskRecord) (result : Fields) → Keeps (write_artifact env wk task result)
  unfolding write_artifact
  artifact-Keeps task result = record {
    at = λ w. elim (Option-cases wk.artifact_store) [
      | inl absent ↦ rw (absent, write_artifact) refl
      | inr (write, there) ↦
          rw (there, write_artifact)
            (register-lem (write task result w.outside).0 (write task result w.outside).1 w)
    ];
  }

  pub task_event-Keeps :
      (run_id : String) (task : TaskRecord) (kind : String) (n : ℕ) (more : Fields)
      → Keeps (task_event env wk run_id task kind n more)
  unfolding task_event
  task_event-Keeps run_id task kind n more = record_event-Keeps env _ _ _ _

  pub report-Keeps :
      (run_id : String) (task working : TaskRecord) (point : String) (call : Call)
      → Keeps (report env wk run_id task working point call)
  unfolding report
  report-Keeps run_id task working point call = Keeps-bind _ _ (refresh-Keeps env run_id) λ status.
      Keeps-bind _ _ (fire-Keeps point call) λ after.
        Keeps-bind _ _ (note-Keeps run_id task point)
          λ _. Keeps-bind _ _ (status_changed-Keeps run_id status) λ _. Keeps-pure _
