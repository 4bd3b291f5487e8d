-- ===== src/State/Sqlite/Refines/RunRows.antt =====
-- state/sqlite.py against state/memory_store.py: the methods that change one run.
use fine_tune_harness.Base.{
  ℕ, String, false, none, some, List, [], ◌∷◌, ◌==◌, if◌then◌else◌, ◌≡◌, refl, ap, ◌∙◌, arith,
  eq_iff, Bool-cases, Option-cases, inl, inr, lookup, insert,
}
use fine_tune_harness.Effects.{return, raise, key_error}
use fine_tune_harness.State.Models.{RunStatus, RunRecord}
use fine_tune_harness.State.Memory
use fine_tune_harness.State.Sqlite.{RunRow, Database, transaction, settle, expect_one, has_run}
use fine_tune_harness.State.Sqlite.Runs.{
  set_runs, count_runs, update_run, row_to_run, update_run_status, update_run_finished_at,
}
use fine_tune_harness.State.Sqlite.Refines.{abstract, runs_by_id}
use fine_tune_harness.State.Sqlite.Refines.Steps.{IsConsistent, HasOneRow, Simulates, simulated}

runs_absent :
    (now : ℕ) (id : String) (change : RunRow → RunRow) (rs : List RunRow)
    → has_run id rs ≡ false
    → (set_runs id change rs ≡ rs)
      × ((count_runs id rs ≡ 0) × (lookup id (runs_by_id now rs) ≡ none))
unfolding set_runs count_runs has_run runs_by_id lookup
runs_absent now id change [] h = (refl, (refl, refl))
runs_absent now id change (r ∷ rs) h = ground (arith, runs_absent now id change rs)

missing_run :
    (now : ℕ) (id : String) (rs : List RunRow)
    → lookup id (runs_by_id now rs) ≡ none
    → has_run id rs ≡ false
unfolding has_run runs_by_id lookup
missing_run now id [] h = refl
missing_run now id (r ∷ rs) h = ground (arith, missing_run now id rs)

has_run-set_runs :
    (id : String) (change : RunRow → RunRow) (x : String) (rs : List RunRow)
    → ((r : RunRow) → (change r).run_id ≡ r.run_id)
    → has_run x (set_runs id change rs) ≡ has_run x rs
unfolding has_run set_runs
has_run-set_runs id change x [] kept = refl
has_run-set_runs id change x (r ∷ rs) kept =
    ground (arith, has_run-set_runs id change x rs kept, kept r)

set_runs-HasOneRow :
    (id : String) (change : RunRow → RunRow) (rs : List RunRow)
    → ((r : RunRow) → (change r).run_id ≡ r.run_id)
    → HasOneRow rs
    → HasOneRow (set_runs id change rs)
unfolding HasOneRow set_runs
set_runs-HasOneRow id change [] kept one_row = tt
set_runs-HasOneRow id change (r ∷ rs) kept one_row = (
  has_run-set_runs id change _ rs kept ∙ ap (λ x. has_run x rs) (same_id r) ∙ one_row.0,
  set_runs-HasOneRow id change rs kept one_row.1,
)
  where
    same_id : (r : RunRow) → (if r.run_id == id then change r else r).run_id ≡ r.run_id
    same_id r = ground (arith, kept r)

-- The primary key: an update by id is one assignment.
set_runs_present :
    (now : ℕ) (id : String) (change : RunRow → RunRow) (on_run : RunRecord → RunRecord)
    → ((r : RunRow) → (change r).run_id ≡ r.run_id)
    → ((r : RunRow) → row_to_run now (change r) ≡ on_run (row_to_run now r))
    → (rs : List RunRow) (run : RunRecord) → HasOneRow rs
    → lookup id (runs_by_id now rs) ≡ some run
    → (runs_by_id now (set_runs id change rs) ≡ insert id (on_run run) (runs_by_id now rs))
      × (count_runs id rs ≡ 1)
unfolding HasOneRow set_runs count_runs runs_by_id lookup insert
set_runs_present now id change on_run kept same [] run one_row found = cc
set_runs_present now id change on_run kept same (r ∷ rs) run one_row found =
    elim (Bool-cases (r.run_id == id)) [
      | inl here ↦ ground (arith, runs_absent now id change rs, eq_iff r.run_id id, kept r, same r)
      | inr other ↦ ground (
        arith,
        set_runs_present now id change on_run kept same rs run one_row.1
            (rw (other, lookup) at found),
        eq_iff r.run_id id,
      )
    ]

module _ (now : ℕ) (id : String) (db : Database) (valid : IsConsistent db.runs db.tasks) where
  -- A method that changes the row of the run and no other.
  update_run_refines :
      (change : RunRow → RunRow) (on_run : RunRecord → RunRecord)
      → ((r : RunRow) → (change r).run_id ≡ r.run_id)
      → ((r : RunRow) → row_to_run now (change r) ≡ on_run (row_to_run now r))
      → Simulates now
          (λ s. elim (lookup id s.runs) [
            | none ↦ (raise key_error, s)
            | some run ↦ (return tt, record s { runs = insert id (on_run run) s.runs })
          ])
          (update_run id change)
          db
  unfolding abstract update_run transaction settle expect_one
  update_run_refines change on_run kept same =
      elim (Option-cases (lookup id (runs_by_id now db.runs))) [
        | inl missing ↦
            let (_, (no_row, _)) =
              runs_absent now id change db.runs (missing_run now id db.runs missing) in
            simulated (raise key_error) db valid (rw missing refl)
              (rw (no_row, update_run, transaction, settle) refl)
        | inr (run, found) ↦
            let (stored, counted) =
              set_runs_present now id change on_run kept same db.runs run valid.one_row found in
            simulated (return tt) (record db { runs = set_runs id change db.runs })
              (record {
                one_row = set_runs-HasOneRow id change db.runs kept valid.one_row;
                keyed = valid.keyed;
                has_runs = λ t stands.
                    has_run-set_runs id change t.run_id db.runs kept ∙ valid.has_runs t stands;
              })
              (rw (found, stored) refl) (rw (counted, update_run, transaction, settle) refl)
      ]

  pub update_run_status_refines :
      (status : RunStatus)
      → Simulates now (Memory.update_run_status id status) (update_run_status id status) db
  unfolding update_run_status Memory.update_run_status row_to_run
  update_run_status_refines status =
      update_run_refines (λ r. record r { status = status }) (λ r. record r { status = status })
        (λ r. refl) (λ r. refl)

  pub update_run_finished_at_refines :
      (at : ℕ)
      → Simulates now (Memory.update_run_finished_at id at) (update_run_finished_at id at) db
  unfolding update_run_finished_at Memory.update_run_finished_at row_to_run
  update_run_finished_at_refines at =
      update_run_refines (λ r. record r { finished_at = some at })
        (λ r. record r { finished_at = some at }) (λ r. refl) (λ r. refl)
