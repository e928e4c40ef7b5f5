-- ===== src/Models/Execution.antt =====
-- Executions (internal/models/execution.go). A time is a number of nanoseconds, and an
-- identifier a number.
use intelligent_workflows.Prelude.{ℕ, String, Option}
use intelligent_workflows.Value.{Fields}

pub data ExecutionStatus : Type 0 where
  pending running waiting completed failed blocked cancelled paused_status : ExecutionStatus

pub data ExecutionResult : Type 0 where
  result_allowed result_blocked result_executed result_failed : ExecutionResult

pub data StepExecutionStatus : Type 0 where
  step_pending step_running step_completed step_failed step_skipped : StepExecutionStatus

pub ExecutionStatus-discrete : Discrete ExecutionStatus
ExecutionStatus-discrete = hlevel

pub record WaitState : Type 0 where
  pub event : String
  pub timeout_at : Option ℕ
  pub on_timeout : String
  pub waiting_since : ℕ

pub record WorkflowExecution : Type 0 where
  pub id : ℕ
  pub organization_id : ℕ
  pub workflow_id : ℕ
  pub execution_id : String
  pub trigger_event : String
  pub trigger_payload : Fields
  pub context : Option Fields
  pub status : ExecutionStatus
  pub result : Option ExecutionResult
  pub current_step_id : Option String
  pub wait_state : Option WaitState
  pub started_at : ℕ
  pub completed_at : Option ℕ
  pub duration_ms : Option ℕ
  pub error_message : Option String
  pub metadata : Fields
  pub timeout_at : Option ℕ
  pub timeout_duration : Option ℕ
  pub paused_at : Option ℕ
  pub paused_reason : Option String
  pub paused_step_id : Option ℕ
  pub next_step_id : Option ℕ
  pub resume_data : Option Fields
  pub resume_count : ℕ
  pub last_resumed_at : Option ℕ

pub record StepExecution : Type 0 where
  pub id : ℕ
  pub organization_id : ℕ
  pub execution_id : ℕ
  pub step_id : String
  pub step_type : String
  pub status : StepExecutionStatus
  pub input : Fields
  pub output : Option Fields
  pub started_at : ℕ
  pub completed_at : Option ℕ
  pub duration_ms : Option ℕ
  pub error_message : Option String
