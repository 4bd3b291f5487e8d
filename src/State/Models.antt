-- ===== src/State/Models.antt =====
-- state/models.py: the statuses and the frozen records.
use fine_tune_harness.Base.{ℕ, String, Option}
use fine_tune_harness.State.Value.{Value, Fields}

pub data RunStatus : Type 0 where
  created validated running partial_failed failed completed cancelled : RunStatus

pub data TaskStatus : Type 0 where
  pending leased running succeeded failed timed_out degenerate cancelled : TaskStatus

-- The `.value` of a status.
unfoldable pub run_status_value : RunStatus → String
run_status_value created = "created"
run_status_value validated = "validated"
run_status_value running = "running"
run_status_value partial_failed = "partial_failed"
run_status_value failed = "failed"
run_status_value completed = "completed"
run_status_value cancelled = "cancelled"

unfoldable pub task_status_value : TaskStatus → String
task_status_value pending = "pending"
task_status_value leased = "leased"
task_status_value TaskStatus.running = "running"
task_status_value succeeded = "succeeded"
task_status_value TaskStatus.failed = "failed"
task_status_value timed_out = "timed_out"
task_status_value degenerate = "degenerate"
task_status_value TaskStatus.cancelled = "cancelled"

-- `config` and `env_snapshot` are dictionaries; a point of time is a number.
pub record RunRecord : Type 0 where
  pub run_id : String
  pub name : String
  pub status : RunStatus
  pub config : Fields
  pub created_at : ℕ
  pub env_snapshot : Fields
  pub finished_at : Option ℕ
  pub seed : Option Value
  pub dataset_hashes : Fields
  pub config_hash : Option String

pub record TaskRecord : Type 0 where
  pub task_id : String
  pub run_id : String
  pub task_key : String
  pub status : TaskStatus
  pub payload : Fields
  pub result : Option Fields
  pub error : Option String
  pub lease_owner : Option String
  pub leased_until : Option ℕ
  pub attempt_count : ℕ

pub record EventRecord : Type 0 where
  pub event_id : String
  pub run_id : String
  pub task_id : Option String
  pub kind : String
  pub payload : Fields
  pub created_at : ℕ

pub record ArtifactRecord : Type 0 where
  pub artifact_id : String
  pub run_id : String
  pub task_id : Option String
  pub kind : String
  pub path : String
  pub checksum : String
