-- ===== src/Orchestrator/Runner/Refresh.antt =====
-- What refresh_run_status does to the stored run (orchestrator/runner.py).
use fine_tune_harness.Base.{
  ℕ, ◌+◌, String, Bool, true, false, ◌&&◌, ◌||◌, Option, some, ◌≡◌, refl, ◌∙◌, inl, inr, arith,
  Bool-cases, Option-cases, lookup, insert, lookup-insert_self,
}
use fine_tune_harness.Effects.{Result, return, raise, value_error, lift}
use fine_tune_harness.World.{Env, World, on_store, record_event, utc_now}
use fine_tune_harness.State.Models.{RunStatus, RunRecord}
use fine_tune_harness.State.Memory.{
  get_run, list_tasks, update_run_status, update_run_finished_at, append_event,
}
use fine_tune_harness.Orchestrator.Lifecycle.{
  run_is, run_in, allowed_run_transitions, ensure_run_transition,
}
use fine_tune_harness.Orchestrator.Runner.{
  status_event, stamp_finished, enter_running, reload, step_through_running, move_to, change_status,
  refresh_run_status, target_status, terminal_statuses,
}

module _ {E : Type 0} (env : Env) (run_id : String) where
  -- The stored run, and the tasks, after a change from `w` to `w'`.
  abbrev pub Stores : World E → World E → RunRecord → Type 0
  Stores w w' run = (w'.store.tasks ≡ w.store.tasks) × (lookup run_id w'.store.runs ≡ some run)

  update-lem :
      (w : World E) (run : RunRecord) (st : RunStatus)
      → lookup run_id w.store.runs ≡ some run
      → (w' : World E) × (on_store (update_run_status run_id st) w ≡ (return tt, w'))
        × Stores w w' (record run { status = st })
  unfolding update_run_status on_store
  update-lem w run st at = (
    record w {
      store = record w.store { runs = insert run_id (record run { status = st }) w.store.runs };
    },
    rw (at, update_run_status) refl,
    (refl, lookup-insert_self run_id _ _),
  )

  event-lem :
      (w : World E) (from to : RunStatus) {run : RunRecord}
      → lookup run_id w.store.runs ≡ some run
      → (w' : World E) × (status_event env run_id from to w ≡ (return tt, w')) × Stores w w' run
  unfolding status_event record_event append_event
  event-lem w from to at = (_, refl, (refl, at))

  finish-lem :
      (w : World E) (run now : RunRecord) (target : RunStatus)
      → lookup run_id w.store.runs ≡ some now
      → (w' : World E) × (stamp_finished env run target run_id w ≡ (return tt, w'))
        × ((finished : Option ℕ) × Stores w w' (record now { finished_at = finished }))
  unfolding stamp_finished update_run_finished_at utc_now on_store
  finish-lem w run now target at = elim (Bool-cases (run_in target terminal_statuses)) [
    | inl last ↦ elim (Option-cases run.finished_at) [
      | inl unfinished ↦ (
        record w {
          store = record w.store {
            runs = insert run_id (record now { finished_at = some (env.now w.reads) }) w.store.runs;
          };
          reads = w.reads + 1;
        },
        rw (last, unfinished, at, update_run_finished_at) refl,
        (some (env.now w.reads), (refl, lookup-insert_self run_id _ _)),
      )
      | inr (time, stamped) ↦ (w, rw (last, stamped) refl, (now.finished_at, (refl, at)))
    ]
    | inr going ↦ (w, rw going refl, (now.finished_at, (refl, at)))
  ]

  ensure-lem :
      (w : World E) (a b : RunStatus)
      → run_in b (allowed_run_transitions a) ≡ true
      → lift (ensure_run_transition a b) w ≡ (return tt, w)
  unfolding ensure_run_transition lift
  ensure-lem w a b allowed = rw allowed refl

  move-lem :
      (w : World E) (run : RunRecord) (target : RunStatus)
      → lookup run_id w.store.runs ≡ some run
      → run_in target (allowed_run_transitions run.status) ≡ true
      → (w' : World E) × (move_to env run target run_id w ≡ (return target, w'))
        × ((finished : Option ℕ) × Stores w w'
              (record run { status = target; finished_at = finished }))
  unfolding move_to
  move-lem w run target at allowed =
      let (w1, e1, stores1) = update-lem w run target at in
      let (w2, e2, finish) = finish-lem w1 run (record run { status = target }) target stores1.1 in
      let (w3, e3, stores3) = event-lem w2 run.status target (finish.1).1 in
      (
        w3,
        rw (ensure-lem w run.status target allowed, e1, e2, e3, move_to) refl,
        (finish.0, (stores3.0 ∙ (finish.1).0 ∙ stores1.0, stores3.1)),
      )

  reload-lem :
      (w : World E) {run : RunRecord}
      → lookup run_id w.store.runs ≡ some run
      → reload env run_id w ≡ (return run, w)
  unfolding reload get_run
  reload-lem w at = rw (at, reload) refl

  enter-lem :
      (w : World E) (run : RunRecord)
      → lookup run_id w.store.runs ≡ some run
      → run_in RunStatus.running (allowed_run_transitions run.status) ≡ true
      → (w' : World E) × (enter_running env run run_id w
          ≡ (return (record run { status = RunStatus.running }), w'))
        × Stores w w' (record run { status = RunStatus.running })
  unfolding enter_running
  enter-lem w run at allowed =
      let (w1, e1, stores1) = update-lem w run RunStatus.running at in
      let (w2, e2, stores2) = event-lem w1 run.status RunStatus.running stores1.1 in
      (
        w2,
        rw (ensure-lem w run.status RunStatus.running allowed, e1, e2, enter_running)
            (reload-lem w2 stores2.1),
        (stores2.0 ∙ stores1.0, stores2.1),
      )

run_is→≡ : (a b : RunStatus) → run_is a b ≡ true → a ≡ b
unfolding run_is
run_is→≡ a b h = ground arith

-- The status is the wanted one, or the table lists the transition, directly or through RUNNING.
abbrev pub is_reachable : RunStatus → RunStatus → Bool
is_reachable from target =
    run_is target from
    || (run_in target (allowed_run_transitions from)
        || (run_in RunStatus.running (allowed_run_transitions from)
            && run_in target (allowed_run_transitions RunStatus.running)))

module _ {E : Type 0} (env : Env) (run_id : String) (w : World E) (run : RunRecord)
    (at : lookup run_id w.store.runs ≡ some run) where
  abbrev target : RunStatus
  target = target_status (list_tasks run_id w.store)

  refresh-settled :
      run_is target run.status ≡ true → refresh_run_status env run_id w ≡ (return target, w)
  unfolding refresh_run_status get_run
  refresh-settled settled = rw (at, settled, refresh_run_status) refl

  refresh-change :
      {r : Result RunStatus × World E}
      → run_is target run.status ≡ false
      → change_status env run target run_id w ≡ r
      → refresh_run_status env run_id w ≡ r
  unfolding refresh_run_status get_run
  refresh-change differs e = rw (at, differs, refresh_run_status) e

  change-direct :
      {r : Result RunStatus × World E}
      → run_in target (allowed_run_transitions run.status) ≡ true
      → move_to env run target run_id w ≡ r
      → change_status env run target run_id w ≡ r
  unfolding change_status step_through_running
  change-direct listed e = rw (listed, step_through_running) e

  change-through :
      {w1 : World E} {r : Result RunStatus × World E} {now : RunRecord}
      → run_in target (allowed_run_transitions run.status) ≡ false
      → run_in RunStatus.running (allowed_run_transitions run.status) ≡ true
      → run_in target (allowed_run_transitions RunStatus.running) ≡ true
      → enter_running env run run_id w ≡ (return now, w1)
      → move_to env now target run_id w1 ≡ r
      → change_status env run target run_id w ≡ r
  unfolding change_status step_through_running
  change-through unlisted to_running onward e1 e =
      rw (unlisted, to_running, onward, step_through_running, e1) e

  through :
      run_is target run.status ≡ false
      → run_in target (allowed_run_transitions run.status) ≡ false
      → is_reachable run.status target ≡ true
      → (run_in RunStatus.running (allowed_run_transitions run.status) ≡ true)
        × (run_in target (allowed_run_transitions RunStatus.running) ≡ true)
  through differs unlisted route = ground arith

  blocked-parts :
      is_reachable run.status target ≡ false
      → (run_is target run.status ≡ false)
        × (run_in target (allowed_run_transitions run.status) ≡ false)
        × (run_in RunStatus.running (allowed_run_transitions run.status)
              && run_in target (allowed_run_transitions RunStatus.running)
            ≡ false)
  blocked-parts blocked = ground arith

  change-blocked :
      run_in target (allowed_run_transitions run.status) ≡ false
      → (run_in RunStatus.running (allowed_run_transitions run.status)
          && run_in target (allowed_run_transitions RunStatus.running))
        ≡ false
      → change_status env run target run_id w ≡ (raise value_error, w)
  unfolding change_status step_through_running move_to ensure_run_transition lift
  change-blocked unlisted stuck = rw (unlisted, stuck, step_through_running, unlisted, move_to) refl

  -- A refresh of a run that is stored, whose status is the one that its tasks ask for or may change
  -- to it, returns that status; the run is stored with it, no field but the status and the end time
  -- of the run changes, and no task changes.
  pub refresh_run_status_settles :
      is_reachable run.status target ≡ true
      → (w' : World E) × (refresh_run_status env run_id w ≡ (return target, w'))
        × ((finished : Option ℕ) × Stores env run_id w w'
              (record run { status = target; finished_at = finished }))
  refresh_run_status_settles route = elim (Bool-cases (run_is target run.status)) [
    | inl settled ↦ (
      w,
      refresh-settled settled,
      (run.finished_at, (refl, rw (run_is→≡ target run.status settled) at)),
    )
    | inr differs ↦ elim (Bool-cases (run_in target (allowed_run_transitions run.status))) [
      | inl listed ↦
          let (w', e, stored) = move-lem env run_id w run target at listed in
          (w', refresh-change differs (change-direct listed e), stored)
      | inr unlisted ↦
          let (to_running, onward) = through differs unlisted route in
          let (w1, e1, stores1) = enter-lem env run_id w run at to_running in
          let (w', e, stored) =
            move-lem env run_id w1 (record run { status = RunStatus.running }) target stores1.1
              onward in
          (
            w',
            refresh-change differs (change-through unlisted to_running onward e1 e),
            (stored.0, ((stored.1).0 ∙ stores1.0, (stored.1).1)),
          )
    ]
  ]

  -- If the status that the tasks ask for cannot be reached, a refresh raises ValueError and changes
  -- nothing.
  pub refresh_run_status_refuses :
      is_reachable run.status target ≡ false
      → refresh_run_status env run_id w ≡ (raise value_error, w)
  refresh_run_status_refuses blocked =
      let (differs, unlisted, stuck) = blocked-parts blocked in
      refresh-change differs (change-blocked unlisted stuck)
