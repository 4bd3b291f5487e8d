-- ===== src/State/Sqlite/Refines/Records.antt =====
-- state/sqlite.py against state/memory_store.py: the records that are only added, events and artifacts.
use fine_tune_harness.Base.{ℕ, true, false, [], ◌∷◌, ◌++◌, ◌≡◌, refl}
use fine_tune_harness.Effects.{return, Exec}
use fine_tune_harness.State.Models.{EventRecord, ArtifactRecord}
use fine_tune_harness.State.Memory.{Store}
use fine_tune_harness.State.Memory
use fine_tune_harness.State.Memory.Recovery
use fine_tune_harness.State.Sqlite.{
  Database, dumps, transaction, settle, has_run, has_event, refers, insert_event,
}
use fine_tune_harness.State.Sqlite.Recovery.{append_event, has_artifact, create_artifact}
use fine_tune_harness.State.Sqlite.Refines.{abstract}
use fine_tune_harness.State.Sqlite.Refines.Steps.{IsConsistent, Simulates, simulated}

-- A method that returns nothing and raises nothing.
abbrev pub effect : (Store → Store) → Exec Store (Unit {0})
effect method s = (return tt, method s)

pub append_event_refines :
    (now : ℕ) (event : EventRecord) (db : Database) (valid : IsConsistent db.runs db.tasks)
    → has_event event.event_id db.events ≡ false
    → has_run event.run_id db.runs ≡ true
    → refers event.task_id db.tasks ≡ true
    → Simulates now
        (effect (Memory.append_event (record event { payload = dumps event.payload })))
        (append_event event)
        db
unfolding abstract append_event Memory.append_event transaction settle insert_event
append_event_refines now event db valid new_id known_run known_task =
    simulated (return tt)
      (record db { events = db.events ++ record event { payload = dumps event.payload } ∷ [] })
      valid refl (rw (new_id, known_run, known_task, append_event, transaction) refl)

pub create_artifact_refines :
    (now : ℕ) (artifact : ArtifactRecord) (db : Database) (valid : IsConsistent db.runs db.tasks)
    → has_artifact artifact.artifact_id db.artifacts ≡ false
    → has_run artifact.run_id db.runs ≡ true
    → refers artifact.task_id db.tasks ≡ true
    → Simulates now (effect (Recovery.create_artifact artifact)) (create_artifact artifact) db
unfolding abstract create_artifact Recovery.create_artifact
create_artifact_refines now artifact db valid new_id known_run known_task =
    simulated (return tt) (record db { artifacts = db.artifacts ++ artifact ∷ [] }) valid refl
      (rw (new_id, known_run, known_task, create_artifact) refl)
