-- ===== src/Models/Approval.antt =====
-- Approval requests (internal/models/event.go). A time is a number of nanoseconds, and an
-- identifier a number, 0 for `uuid.Nil`.
use intelligent_workflows.Prelude.{ℕ, String, Option}

pub data ApprovalStatus : Type 0 where
  pending approved rejected expired : ApprovalStatus

pub record ApprovalRequest : Type 0 where
  pub id : ℕ
  pub organization_id : ℕ
  pub request_id : String
  pub execution_id : ℕ
  pub entity_type : String
  pub entity_id : String
  pub requester_id : Option ℕ
  pub approver_role : String
  pub approver_id : Option ℕ
  pub status : ApprovalStatus
  pub reason : Option String
  pub decision_reason : Option String
  pub requested_at : ℕ
  pub decided_at : Option ℕ
  pub expires_at : Option ℕ
