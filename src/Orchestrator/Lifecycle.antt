-- ===== src/Orchestrator/Lifecycle.antt =====
-- orchestrator/lifecycle.py: which statuses may follow which.
use fine_tune_harness.Base.{ℕ, Bool, false, ◌||◌, List, [], ◌∷◌, nat_eq, if◌then◌else◌}
use fine_tune_harness.State.Models.{
  RunStatus, created, validated, partial_failed, completed, TaskStatus,
}
use fine_tune_harness.Effects.{Result, return, raise, value_error}

-- The members of the enumerations in the order of their declaration; `==` compares members.
run_index : RunStatus → ℕ
run_index created = 0
run_index validated = 1
run_index RunStatus.running = 2
run_index partial_failed = 3
run_index RunStatus.failed = 4
run_index completed = 5
run_index RunStatus.cancelled = 6

task_index : TaskStatus → ℕ
task_index TaskStatus.pending = 0
task_index TaskStatus.leased = 1
task_index TaskStatus.running = 2
task_index TaskStatus.succeeded = 3
task_index TaskStatus.failed = 4
task_index TaskStatus.timed_out = 5
task_index TaskStatus.degenerate = 6
task_index TaskStatus.cancelled = 7

unfoldable pub run_is : RunStatus → RunStatus → Bool
unfolding run_index
run_is a b = nat_eq (run_index a) (run_index b)

unfoldable pub task_is : TaskStatus → TaskStatus → Bool
unfolding task_index
task_is a b = nat_eq (task_index a) (task_index b)

-- `status in set`
unfoldable pub run_in : RunStatus → List RunStatus → Bool
unfolding run_is
run_in s [] = false
run_in s (t ∷ ts) = run_is s t || run_in s ts

unfoldable pub task_in : TaskStatus → List TaskStatus → Bool
unfolding task_is
task_in s [] = false
task_in s (t ∷ ts) = task_is s t || task_in s ts

unfoldable pub allowed_run_transitions : RunStatus → List RunStatus
allowed_run_transitions created = validated ∷ RunStatus.cancelled ∷ []
allowed_run_transitions validated = RunStatus.running ∷ RunStatus.cancelled ∷ []
allowed_run_transitions RunStatus.running =
    partial_failed ∷ RunStatus.failed ∷ completed ∷ RunStatus.cancelled ∷ []
allowed_run_transitions partial_failed = RunStatus.failed ∷ completed ∷ RunStatus.cancelled ∷ []
allowed_run_transitions RunStatus.failed = []
allowed_run_transitions completed = []
allowed_run_transitions RunStatus.cancelled = []

unfoldable pub allowed_task_transitions : TaskStatus → List TaskStatus
allowed_task_transitions TaskStatus.pending = TaskStatus.leased ∷ TaskStatus.cancelled ∷ []
allowed_task_transitions TaskStatus.leased =
    TaskStatus.running ∷ TaskStatus.cancelled ∷ TaskStatus.timed_out ∷ []
allowed_task_transitions TaskStatus.running =
    TaskStatus.succeeded ∷ TaskStatus.failed ∷ TaskStatus.timed_out ∷ TaskStatus.degenerate
    ∷ TaskStatus.cancelled ∷ TaskStatus.pending ∷ []
allowed_task_transitions TaskStatus.succeeded = []
allowed_task_transitions TaskStatus.failed = []
allowed_task_transitions TaskStatus.timed_out = []
allowed_task_transitions TaskStatus.degenerate = []
allowed_task_transitions TaskStatus.cancelled = []

unfoldable pub ensure_run_transition : RunStatus → RunStatus → Result (Unit {0})
unfolding run_in allowed_run_transitions
ensure_run_transition current target =
    if run_in target (allowed_run_transitions current) then return tt else raise value_error

unfoldable pub ensure_task_transition : TaskStatus → TaskStatus → Result (Unit {0})
unfolding task_in allowed_task_transitions
ensure_task_transition current target =
    if task_in target (allowed_task_transitions current) then return tt else raise value_error
