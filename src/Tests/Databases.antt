-- ===== src/Tests/Databases.antt =====
-- The theorems on the persistent store (state/sqlite.py) at a database of two tasks.
use fine_tune_harness.Base.{true, none, some, List, [], ◌∷◌, ◌≡◌, refl, inl, inr, lookup}
use fine_tune_harness.Base.Int.{pos}
use fine_tune_harness.Effects.{return}
use fine_tune_harness.State.Value.{int, end, field}
use fine_tune_harness.State.Models.{RunStatus, TaskStatus, TaskRecord, EventRecord}
use fine_tune_harness.State.Memory.Keys.{In}
use fine_tune_harness.State.Sqlite.{Database, has_run, has_event, has_task, refers}
use fine_tune_harness.State.Sqlite.Runs.{
  row_of_run, update_run_status, update_run_finished_at, create_run, get_run, canonical_run,
  get_run-create_run,
}
use fine_tune_harness.State.Sqlite.Tasks.{create_task, row_of_task, has_key_in_run}
use fine_tune_harness.State.Sqlite.Refines.{by_id, abstract}
use fine_tune_harness.State.Sqlite.Refines.Steps.{IsConsistent, HasOneRow}
use fine_tune_harness.State.Sqlite.Refines.Calls.{
  Call, set_status, mark_running, count_attempt, lease, reclaim, add_task, append, set_run_status,
  set_finished, on_store, on_database, replies, AllFresh, replies_refine,
}
use fine_tune_harness.State.Sqlite.Recovery.{reclaim_dead_worker, append_event}
use fine_tune_harness.State.Memory.{first_such, new_event}
use fine_tune_harness.State.Memory.Recovery.{is_held, count_events}
use fine_tune_harness.Orchestrator.Lifecycle.{task_is}
use fine_tune_harness.Tests.{task_as, held_by, run_as, stamp}

-- "a" has a lease that ended at 3, "b" runs under "w".
abbrev two_rows : Database
two_rows = record {
  runs = row_of_run (run_as RunStatus.running) (some (pos 42)) ∷ [];
  tasks =
      held_by "v" 3 (task_as "a" TaskStatus.leased 0)
      ∷ held_by "w" 9 (task_as "b" TaskStatus.running 1)
      ∷ [];
  events = [];
  artifacts = [];
}

abbrev no_rows : Database
no_rows = record { runs = []; tasks = []; events = []; artifacts = [] }

abbrev calls : List Call
calls =
    lease 6 7 stamp "r" "w" 300
    ∷ mark_running "a"
    ∷ count_attempt "a"
    ∷ set_status "a" TaskStatus.succeeded (some (field "loss" (int (pos 1)) end)) none
    ∷ set_status "a" TaskStatus.running none none
    ∷ mark_running "c"
    ∷ []

abbrev started : EventRecord
started = record {
  event_id = "g";
  run_id = "r";
  task_id = some "b";
  kind = "task_started";
  payload = end;
  created_at = 8;
}

-- The worker "w" dies with "b", and there is no run "q".
abbrev last_calls : List Call
last_calls =
    reclaim (record { event_id = "f"; created_at = 8 }) "r" "w" 5
    ∷ add_task (task_as "d" TaskStatus.pending 0)
    ∷ append started
    ∷ set_run_status "r" RunStatus.failed
    ∷ set_finished "q" 9
    ∷ calls

two_rows-IsConsistent : IsConsistent two_rows.runs two_rows.tasks
unfolding row_of_run has_run lookup by_id HasOneRow
two_rows-IsConsistent = record {
  one_row = (refl, tt);
  keyed = (refl, refl, (refl, refl, tt));
  has_runs = λ t stands. known t stands;
}
  where
    known : (t : TaskRecord) → In t two_rows.tasks → has_run t.run_id two_rows.runs ≡ true
    known t (inl e) = rw e refl
    known t (inr (inl e)) = rw e refl
    known t (inr (inr none_left)) = elim none_left [ ]

replies_refine_example : replies on_store last_calls (abstract 5 two_rows) ≡ (
  (replies on_database last_calls two_rows).0,
  abstract 5 (replies on_database last_calls two_rows).1,
)
unfolding AllFresh has_event has_run refers has_task append_event create_task row_of_task
    has_key_in_run update_run_status update_run_finished_at on_database reclaim_dead_worker
    first_such is_held task_is count_events row_of_run new_event
replies_refine_example = replies_refine 5 last_calls two_rows two_rows-IsConsistent (
  refl,
  (
    (refl, (refl, refl)),
    ((refl, (refl, refl)), (tt, (tt, (refl, (tt, (tt, (tt, (tt, (tt, tt))))))))),
  ),
)

get_run-create_run_example :
    ((create_run (run_as RunStatus.created) no_rows).0 ≡ return tt)
    × (get_run 5 "r" (create_run (run_as RunStatus.created) no_rows).1
        ≡ some (canonical_run (run_as RunStatus.created)))
unfolding has_run
get_run-create_run_example =
    get_run-create_run 5 (run_as RunStatus.created) (pos 42) no_rows refl refl refl
