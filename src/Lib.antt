-- ===== src/Lib.antt =====
-- FineTuneHarness: a harness that runs grids of fine-tuning tasks. A run is created from a checked
-- configuration, its tasks are leased from a store one by one, a worker calls the user's handler on
-- each, judges the result and records what became of the task, and the status of the run follows.
--
-- Parts and files:
-- - State: the package src/finetuneharness/state. State/Value are the Python values that JSON can carry,
--   floats held exactly; State/Models the records of models.py; State/Leases leases.py; State/Memory and
--   State/Memory/Recovery the methods of memory_store.py, each one step on a record of the four tables,
--   since each holds the store's lock. State/Reproducibility and State/Manifest are
--   assess_reproducibility and export_manifest of reproducibility.py. State/Sqlite and its children are
--   sqlite.py: a table is the list of its rows, a method a transaction that leaves them as they were if
--   it raises, and Refines takes the tables as the dictionaries of State/Memory.
-- - Effects and World: statements that may raise, over a state that outlives the exception: the store,
--   how often clock and id generator were read, the cached seeds of the runs and the world outside, of
--   any type, which only hooks, handlers, seeding and the artifact store change. Env has the readings.
-- - Orchestrator: the package src/finetuneharness/orchestrator. Lifecycle are the transition tables,
--   Runner refresh_run_status, Creation create_run, await_approval, get_run_status and the interactive
--   gate of approval.py, Hooks the registry of hooks.
-- - Evaluation: the package src/finetuneharness/evaluation. Validator is validate_result of validator.py;
--   Comparator the tests on two runs of comparator.py, Comparator/Tasks the comparison of one task,
--   Comparator/Snapshots and Comparator/Reports compare_runs; Floats is the binary64 arithmetic that it uses.
-- - Executor: the package src/finetuneharness/executor. Session has the configuration of a worker and the
--   steps before and around the handler, Worker run_once with its outcomes and drain, Conversion the
--   reading of limits from payloads, Oom the detection of GPU memory errors (resources.py), Concurrent the
--   loop of drain_concurrent as a step relation.
-- - Validation/Configs: src/finetuneharness/validation/configs.py.
-- - Registry: the package src/finetuneharness/registry: the dispatcher, the skill registry and the hook for
--   early stopping.
-- - Tests: concrete worlds.
--
-- Parameters: hooks, handlers, sandboxes, approval gates, skills and the artifact store, which is not in
-- the repository, are functions; canonical_json_hash, the environment snapshot, the parsing of a text as
-- an integer, decimal digits and the seeding of the random generators are fields of Env and Worker.
-- Hooks and handlers have no access to the store. The rounded sum of wall seconds in a comparison is a
-- parameter.
--
-- Bounds: all recursion is structural but for drain, whose loop takes fuel and gives none without it. The
-- attempts that the tasks of the table have left, and one round more, are enough fuel.
--
-- Not modelled: the schema and migration of the SQLite store, the start of the processes of
-- drain_concurrent, the pause between two attempts, the texts of messages and logs (an exception of
-- the harness is its class, a message its kind, and the error that a DEGENERATE task stores is the
-- status alone), lower-casing beyond ASCII, the GPU monitor, FirejailSandbox, the
-- other built-in hooks and skills, report, metrics, parse_since_duration and command line. But for the
-- children of drain_concurrent, other processes do not act between two calls of the store.
pub mod Base
pub mod Effects
pub mod State
pub mod World
pub mod Orchestrator
pub mod Evaluation
pub mod Executor
pub mod Validation
pub mod Registry
pub mod Tests
