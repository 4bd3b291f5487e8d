-- ===== src/State/Sqlite/Refines/Steps.antt =====
-- state/sqlite.py against state/memory_store.py: the methods on one task.
use fine_tune_harness.Base.{
  ℕ, ◌+◌, String, true, false, Option, none, some, List, [], ◌∷◌, ◌==◌, if◌then◌else◌, ◌≡◌, refl,
  ap, sym, ◌∙◌, arith, eq_iff, Bool-cases, Option-cases, inl, inr, lookup, lookup-insert_self,
}
use fine_tune_harness.Effects.{Result, return, raise, Exec, lift, key_error, Result-cases}
use fine_tune_harness.State.Models.{TaskStatus, leased, TaskRecord}
use fine_tune_harness.State.Value.{Fields}
use fine_tune_harness.State.Memory
use fine_tune_harness.State.Memory.{Store, put_task_at}
use fine_tune_harness.State.Memory.Keys.{In, IsKeyed, lookup-task_id, insert-IsKeyed}
use fine_tune_harness.State.Sqlite.{
  RunRow, Database, transaction, settle, expect_one, set_rows, update_rows, has_run,
}
use fine_tune_harness.State.Sqlite.Tasks.{
  dumps_optional, expect_row, set_outcome, update_task_status, set_running, count_leased,
  mark_task_running, add_attempt, increment_task_attempts,
}
use fine_tune_harness.State.Sqlite.Refines.{
  by_id, abstract, task_row-by_id, set_rows_absent, set_rows_present,
}
use mathlib.Core.Path.{subst}
use fine_tune_harness.Orchestrator.Lifecycle.{ensure_task_transition, task_is}

-- No two rows have the same id.
unfoldable pub HasOneRow : List RunRow → Type 0
HasOneRow [] = Unit
HasOneRow (r ∷ rs) = (has_run r.run_id rs ≡ false) × HasOneRow rs

-- The primary keys of the runs and of the tasks, and the foreign key of the tasks.
pub record IsConsistent (runs : List RunRow) (tasks : List TaskRecord) : Type 0 where
  pub one_row : HasOneRow runs
  pub keyed : IsKeyed (by_id tasks)
  pub has_runs : (t : TaskRecord) → In t tasks → has_run t.run_id runs ≡ true

record KeepsKeys (change : TaskRecord → TaskRecord) : Type 0 where
  same_id : (t : TaskRecord) → (change t).task_id ≡ t.task_id
  same_run : (t : TaskRecord) → (change t).run_id ≡ t.run_id

set_rows-IsKeyed :
    (id : String) (change : TaskRecord → TaskRecord) (ts : List TaskRecord)
    → KeepsKeys change
    → IsKeyed (by_id ts)
    → IsKeyed (by_id (set_rows id change ts))
set_rows-IsKeyed id change ts keeps keyed = elim (Option-cases (lookup id (by_id ts))) [
  | inl missing ↦ rw (set_rows_absent id change ts missing).0 keyed
  | inr (t, found) ↦ rw (set_rows_present id change ts t keyed found (keeps.same_id t)).0 (
      insert-IsKeyed id (change t) (by_id ts)
        (keeps.same_id t ∙ lookup-task_id id (by_id ts) t keyed found) keyed)
]

In-set_rows :
    (id : String) (change : TaskRecord → TaskRecord) (ts : List TaskRecord)
    → KeepsKeys change
    → (t : TaskRecord) → In t (set_rows id change ts)
    → (u : TaskRecord) × (In u ts × (t.run_id ≡ u.run_id))
unfolding set_rows
In-set_rows id change [] keeps t stands = absurd stands
In-set_rows id change (u ∷ ts) keeps t (inl here) =
    (u, (inl refl, ground (arith, keeps.same_run u)))
In-set_rows id change (u ∷ ts) keeps t (inr later) =
    let (v, (stands, same)) = In-set_rows id change ts keeps t later in (v, (inr stands, same))

pub set_rows-IsConsistent :
    (id : String) (change : TaskRecord → TaskRecord) {runs : List RunRow} {ts : List TaskRecord}
    → ((t : TaskRecord) → (change t).task_id ≡ t.task_id)
    → ((t : TaskRecord) → (change t).run_id ≡ t.run_id)
    → IsConsistent runs ts
    → IsConsistent runs (set_rows id change ts)
set_rows-IsConsistent id change {runs = runs} {ts = ts} same_id same_run h = record {
  one_row = h.one_row;
  keyed = set_rows-IsKeyed id change ts keeps h.keyed;
  has_runs = λ t stands.
      let (u, (before, same)) = In-set_rows id change ts keeps t stands in
      ap (λ r. has_run r runs) same ∙ h.has_runs u before;
}
  where
    keeps : KeepsKeys change
    keeps = record { same_id = same_id; same_run = same_run }

-- On the store that the database stands for, the first method does what the second does on the
-- database, and the keys hold afterwards.
pub record Simulates {A : Type 0} (now : ℕ) (abstract_method : Exec Store A)
    (method : Exec Database A) (db : Database) : Type 0 where
  pub same : abstract_method (abstract now db) ≡ ((method db).0, abstract now (method db).1)
  pub consistent : IsConsistent (method db).1.runs (method db).1.tasks

pub simulated :
    {A : Type 0} {now : ℕ} {m : Exec Store A} {method : Exec Database A} {db : Database}
    (r : Result A) (db' : Database)
    → IsConsistent db'.runs db'.tasks
    → m (abstract now db) ≡ (r, abstract now db')
    → method db ≡ (r, db')
    → Simulates now m method db
simulated {now = now} r db' consistent abstractly concretely = record {
  same = abstractly ∙ sym (ap (λ (o : Result _ × Database). (o.0, abstract now o.1)) concretely);
  consistent =
      subst (λ (o : Result _ × Database). IsConsistent o.1.runs o.1.tasks) (sym concretely)
        consistent;
}

leased_of_absent :
    (id : String) (ts : List TaskRecord) → lookup id (by_id ts) ≡ none → count_leased id ts ≡ 0
unfolding count_leased by_id lookup
leased_of_absent id [] h = refl
leased_of_absent id (t ∷ ts) h = ground (arith, leased_of_absent id ts)

leased_of_present :
    (id : String) (ts : List TaskRecord) (t : TaskRecord)
    → IsKeyed (by_id ts)
    → lookup id (by_id ts) ≡ some t
    → count_leased id ts ≡ (if task_is t.status leased then 1 else 0)
unfolding count_leased by_id lookup
leased_of_present id [] t keyed found = cc
leased_of_present id (u ∷ ts) t keyed found = elim (Bool-cases (u.task_id == id)) [
  | inl here ↦ ground (arith, leased_of_absent id ts, eq_iff u.task_id id)
  | inr other ↦ ground (arith, leased_of_present id ts t, eq_iff u.task_id id)
]

set_running_id : (t : TaskRecord) → (set_running t).task_id ≡ t.task_id
unfolding set_running
set_running_id t = ground arith

set_running_run : (t : TaskRecord) → (set_running t).run_id ≡ t.run_id
unfolding set_running
set_running_run t = ground arith

module _ (now : ℕ) (id : String) (db : Database) (valid : IsConsistent db.runs db.tasks) where
  pub update_task_status_refines :
      (status : TaskStatus) (result : Option Fields) (error : Option String)
      → Simulates now
          (Memory.update_task_status id status (dumps_optional result) error)
          (update_task_status id status result error)
          db
  unfolding abstract update_task_status Memory.update_task_status transaction settle expect_row
      update_rows set_outcome expect_one put_task_at lift
  update_task_status_refines status result error =
      elim (Option-cases (lookup id (by_id db.tasks))) [
        | inl missing ↦
            simulated (raise key_error) db valid (rw (missing, Memory.update_task_status) refl) (
              rw
                (
                  task_row-by_id id db.tasks ∙ missing,
                  update_task_status,
                  transaction,
                  settle,
                  expect_row,
                )
                refl)
        | inr (t, found) ↦
            let (stored, one_row) =
              set_rows_present id (set_outcome status result error) db.tasks t valid.keyed found
                refl in
            let selected = task_row-by_id id db.tasks ∙ found in
            elim (Result-cases (ensure_task_transition t.status status)) [
              | inl (e, refused) ↦
                  simulated (raise e) db valid (rw (found, refused, Memory.update_task_status) refl)
                    (rw (selected, refused, update_task_status, transaction, settle, expect_row)
                      refl)
              | inr (_, allowed) ↦
                  simulated (return tt)
                    (record db { tasks = set_rows id (set_outcome status result error) db.tasks })
                    (set_rows-IsConsistent id (set_outcome status result error) (λ t. refl)
                      (λ t. refl) valid)
                    (rw (found, allowed, stored, Memory.update_task_status) refl)
                    (rw
                      (
                        selected, allowed, one_row, update_task_status, transaction, settle,
                        expect_row,
                      )
                      refl)
            ]
      ]

  -- A method that changes the row of the task and no other.
  pub mark_task_running_refines :
      Simulates now (Memory.mark_task_running id) (mark_task_running id) db
  unfolding abstract mark_task_running Memory.mark_task_running transaction settle update_rows
      expect_one put_task_at
  mark_task_running_refines = elim (Option-cases (lookup id (by_id db.tasks))) [
    | inl missing ↦
        let no_row = leased_of_absent id db.tasks missing in
        simulated (raise key_error) db valid (rw (missing, Memory.mark_task_running) refl)
          (rw (no_row, mark_task_running, transaction, settle) refl)
    | inr (t, found) ↦
        let one_row = leased_of_present id db.tasks t valid.keyed found in
        elim (Bool-cases (task_is t.status leased)) [
          | inl is_leased ↦
              let (stored, _) =
                set_rows_present id set_running db.tasks t valid.keyed found
                  (rw (is_leased, set_running) refl) in
              simulated (return tt) (record db { tasks = set_rows id set_running db.tasks })
                (set_rows-IsConsistent id set_running set_running_id set_running_run valid)
                (rw (found, is_leased, stored, Memory.mark_task_running)
                  (rw (is_leased, set_running) refl))
                (rw (one_row, is_leased, mark_task_running, transaction, settle) refl)
          | inr not_leased ↦
              simulated (raise key_error) db valid
                (rw (found, not_leased, Memory.mark_task_running) refl)
                (rw (one_row, not_leased, mark_task_running, transaction, settle) refl)
        ]
  ]

  pub increment_task_attempts_refines :
      Simulates now (Memory.increment_task_attempts id) (increment_task_attempts id) db
  unfolding abstract increment_task_attempts Memory.increment_task_attempts transaction settle
      update_rows add_attempt expect_one put_task_at expect_row
  increment_task_attempts_refines = elim (Option-cases (lookup id (by_id db.tasks))) [
    | inl missing ↦
        let (_, no_row) = set_rows_absent id add_attempt db.tasks missing in
        simulated (raise key_error) db valid (rw (missing, Memory.increment_task_attempts) refl)
          (rw (no_row, increment_task_attempts, transaction, settle) refl)
    | inr (t, found) ↦
        let (stored, one_row) = set_rows_present id add_attempt db.tasks t valid.keyed found refl in
        let selected =
          task_row-by_id id (set_rows id add_attempt db.tasks)
          ∙ ap (lookup id) stored
          ∙ lookup-insert_self id (add_attempt t) (by_id db.tasks) in
        simulated (return (t.attempt_count + 1))
          (record db { tasks = set_rows id add_attempt db.tasks })
          (set_rows-IsConsistent id add_attempt (λ t. refl) (λ t. refl) valid)
          (rw (found, stored, Memory.increment_task_attempts) refl)
          (rw (one_row, selected, increment_task_attempts, transaction, settle) refl)
  ]
