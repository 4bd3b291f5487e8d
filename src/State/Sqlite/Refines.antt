-- ===== src/State/Sqlite/Refines.antt =====
-- The persistent store (state/sqlite.py) as the in-memory one (state/memory_store.py): the tables as
-- dictionaries.
pub mod Steps
pub mod Leases
pub mod Reclaims
pub mod RunRows
pub mod Records
pub mod TaskRows
pub mod Calls
use fine_tune_harness.Base.{
  ℕ, suc, ◌+◌, String, Bool, true, false, Option, none, some, List, [], ◌∷◌, ◌==◌, if◌then◌else◌,
  ◌≡◌, refl, ap, sym, ◌∙◌, arith, eq_iff, Bool-cases, inl, inr, Dict, lookup, insert, values,
}
use fine_tune_harness.State.Models.{RunRecord, TaskRecord}
use fine_tune_harness.State.Memory.{Store}
use fine_tune_harness.State.Memory.Keys.{IsKeyed}
use fine_tune_harness.State.Sqlite.{RunRow, Database, task_row, set_rows, count_rows, has_task}
use fine_tune_harness.State.Sqlite.Runs.{row_to_run}

unfoldable pub by_id : List TaskRecord → Dict TaskRecord
by_id [] = []
by_id (t ∷ ts) = (t.task_id, t) ∷ by_id ts

unfoldable pub runs_by_id : (now : ℕ) → List RunRow → Dict RunRecord
runs_by_id now [] = []
runs_by_id now (r ∷ rs) = (r.run_id, row_to_run now r) ∷ runs_by_id now rs

-- The store that a database stands for; `now` is the time that a run without one is given.
unfoldable pub abstract : (now : ℕ) → Database → Store
unfolding by_id runs_by_id
abstract now db = record {
  runs = runs_by_id now db.runs;
  tasks = by_id db.tasks;
  events = db.events;
  artifacts = db.artifacts;
}

pub values-by_id : (ts : List TaskRecord) → values (by_id ts) ≡ ts
unfolding values by_id
values-by_id [] = refl
values-by_id (t ∷ ts) = ap (λ us. t ∷ us) (values-by_id ts)

pub task_row-by_id : (id : String) (ts : List TaskRecord) → task_row id ts ≡ lookup id (by_id ts)
unfolding task_row by_id lookup
task_row-by_id id [] = refl
task_row-by_id id (t ∷ ts) = ground (arith, task_row-by_id id ts)

-- Rows without the id stay as they are.
pub set_rows_absent :
    (id : String) (change : TaskRecord → TaskRecord) (ts : List TaskRecord)
    → lookup id (by_id ts) ≡ none
    → (set_rows id change ts ≡ ts) × (count_rows id ts ≡ 0)
unfolding set_rows count_rows by_id lookup
set_rows_absent id change [] h = (refl, refl)
set_rows_absent id change (t ∷ ts) h = elim (Bool-cases (t.task_id == id)) [
  | inl here ↦ ground arith
  | inr other ↦
      let (kept, none_counted) = set_rows_absent id change ts (rw (other, lookup) at h) in
      (rw (other, kept) refl, rw (other, none_counted) (ground arith))
]

-- The primary key: an update by id is one assignment.
pub set_rows_present :
    (id : String) (change : TaskRecord → TaskRecord) (ts : List TaskRecord) (t : TaskRecord)
    → IsKeyed (by_id ts)
    → lookup id (by_id ts) ≡ some t
    → (change t).task_id ≡ t.task_id
    → (by_id (set_rows id change ts) ≡ insert id (change t) (by_id ts)) × (count_rows id ts ≡ 1)
unfolding set_rows count_rows by_id lookup insert
set_rows_present id change [] t h found kept = cc
set_rows_present id change (u ∷ ts) t h found kept = elim (Bool-cases (u.task_id == id)) [
  | inl here ↦ ground (arith, set_rows_absent id change ts, eq_iff u.task_id id)
  | inr other ↦ ground (
    arith,
    set_rows_present id change ts t h.2 (rw (other, lookup) at found) kept,
    eq_iff u.task_id id,
  )
]
