-- ===== src/State/Sqlite/Refines/TaskRows.antt =====
-- state/sqlite.py against state/memory_store.py: create_task.
use fine_tune_harness.Base.{
  ℕ, true, false, List, [], ◌∷◌, ◌++◌, ◌≡◌, ◌⊎◌, refl, ap, ◌∙◌, arith, inl, inr, insert, has_key,
}
use fine_tune_harness.Effects.{return}
use fine_tune_harness.State.Models.{TaskRecord}
use fine_tune_harness.State.Memory
use fine_tune_harness.State.Memory.Keys.{In, insert-IsKeyed}
use fine_tune_harness.State.Sqlite.{RunRow, Database, has_run, has_task}
use fine_tune_harness.State.Sqlite.Tasks.{row_of_task, has_key_in_run, create_task}
use fine_tune_harness.State.Sqlite.Refines.{by_id, abstract}
use fine_tune_harness.State.Sqlite.Refines.Steps.{IsConsistent, Simulates, simulated}

-- A row with a new id is the last one.
appended_row :
    (t : TaskRecord) (ts : List TaskRecord)
    → has_task t.task_id ts ≡ false
    → (insert t.task_id t (by_id ts) ≡ by_id (ts ++ t ∷ []))
      × (has_key t.task_id (by_id ts) ≡ false)
unfolding has_task by_id insert has_key
appended_row t [] new_id = (refl, refl)
appended_row t (u ∷ ts) new_id = ground (arith, appended_row t ts)

In-appended : (t u : TaskRecord) (ts : List TaskRecord) → In u (ts ++ t ∷ []) → (u ≡ t) ⊎ In u ts
In-appended t u [] (inl e) = inl e
In-appended t u [] (inr later) = elim later [ ]
In-appended t u (v ∷ ts) (inl e) = inr (inl e)
In-appended t u (v ∷ ts) (inr later) = elim (In-appended t u ts later) [
  | inl e ↦ inl e
  | inr stands ↦ inr (inr stands)
]

appended-IsConsistent :
    (t : TaskRecord) (runs : List RunRow) (ts : List TaskRecord)
    → IsConsistent runs ts
    → has_task t.task_id ts ≡ false
    → has_run t.run_id runs ≡ true
    → IsConsistent runs (ts ++ t ∷ [])
appended-IsConsistent t runs ts valid new_id known_run = record {
  one_row = valid.one_row;
  keyed =
      rw (← (appended_row t ts new_id).0) (insert-IsKeyed t.task_id t (by_id ts) refl valid.keyed);
  has_runs = λ u stands. elim (In-appended t u ts stands) [
    | inl e ↦ ap (λ (v : TaskRecord). has_run v.run_id runs) e ∙ known_run
    | inr before ↦ valid.has_runs u before
  ];
}

pub create_task_refines :
    (now : ℕ) (task : TaskRecord) (db : Database)
    → IsConsistent db.runs db.tasks
    → has_task task.task_id db.tasks ≡ false
    → has_key_in_run task.run_id task.task_key db.tasks ≡ false
    → has_run task.run_id db.runs ≡ true
    → Simulates now (Memory.create_task (row_of_task task)) (create_task task) db
unfolding abstract create_task Memory.create_task row_of_task
create_task_refines now task db valid new_id new_key known_run =
    let (stored, absent) = appended_row (row_of_task task) db.tasks new_id in
    simulated (return tt) (record db { tasks = db.tasks ++ row_of_task task ∷ [] })
      (appended-IsConsistent (row_of_task task) db.runs db.tasks valid new_id known_run)
      (rw (absent, stored, Memory.create_task) refl)
      (rw (new_id, new_key, known_run, create_task) refl)
