-- ===== src/Approval/Service.antt =====
-- The approval service (internal/services/approval_service.go).
use intelligent_workflows.Prelude.{
  ℕ, String, Bool, true, false, List, [], ◌∷◌, Option, none, some, if◌then◌else◌, ltb, is_some, not,
  ◌&&◌, Err, msg, wrap, concat, Result, ok, err,
}
use intelligent_workflows.Value.{ℤ}
use intelligent_workflows.Models.Approval.{
  ApprovalStatus, pending, approved, rejected, expired, ApprovalRequest,
}
use intelligent_workflows.Approval.Store.{
  Host, Effect, request_notified, decision_notified, approval_audited, rejection_audited,
  workflow_resumed, D, ◌>>=◌, ◌>>◌, return, ask, is_pending, create_approval,
  update_approval_status, get_approval_by_id, get_expired_approvals,
}

abbrev pub approval_status_text : ApprovalStatus → String
approval_status_text ApprovalStatus.pending = "pending"
approval_status_text ApprovalStatus.approved = "approved"
approval_status_text ApprovalStatus.rejected = "rejected"
approval_status_text ApprovalStatus.expired = "expired"

abbrev pub added : Bool → Effect → List Effect → List Effect
added configured e effects = if configured then e ∷ effects else effects

-- A call to another service, if the service is configured.
abbrev pub effect : Bool → Effect → D (Unit {0})
effect configured e d = (tt, record d { effects = added configured e d.effects })

-- What `ApproveRequest` and `RejectRequest` differ in.
pub data Decision : Type 0 where
  approve reject : Decision

abbrev pub decision_status : Decision → ApprovalStatus
decision_status approve = approved
decision_status reject = rejected

abbrev pub is_approve : Decision → Bool
is_approve approve = true
is_approve reject = false

abbrev pub audited : Decision → ℕ → ℕ → Option String → Effect
audited approve = approval_audited
audited reject = rejection_audited

-- `nil` where the approval may be decided at the given time
unfoldable pub decision_refusal : ApprovalRequest → ℕ → Option Err
decision_refusal a now =
    if is_pending a.status
    then elim a.expires_at [
      | none ↦ none
      | some t ↦ if ltb t now then some (msg "approval has expired") else none
    ]
    else some (
        msg
          (concat ("approval is not pending (status: " ∷ approval_status_text a.status ∷ ")" ∷ [])))

-- The fields that `CreateApprovalRequest` sets; `OrganizationID` keeps its zero value.
abbrev pub new_request :
    ℕ → String → ℕ → String → String → Option ℕ → String → String → ℕ → Option ℕ → ApprovalRequest
new_request id short execution entity entity_id requester role reason now expires_at = record {
  id = id;
  organization_id = 0;
  request_id = concat ("appr_" ∷ short ∷ []);
  execution_id = execution;
  entity_type = entity;
  entity_id = entity_id;
  requester_id = requester;
  approver_role = role;
  approver_id = none;
  status = pending;
  reason = some reason;
  decision_reason = none;
  requested_at = now;
  decided_at = none;
  expires_at = expires_at;
}

module _ (host : Host) where
  -- The calls after the decision, on the row as it is read back.
  unfoldable pub announce :
      Decision → ℕ → Option String → Result ApprovalRequest → D (Result ApprovalRequest)
  announce decision approver reason (err e) = return (err (wrap "failed to get updated approval" e))
  announce decision approver reason (ok a) = do
    effect host.has_audit (audited decision a.id approver reason)
    effect host.has_resumer (workflow_resumed a.execution_id (is_approve decision))
    effect host.has_notifications (decision_notified a)
    return (ok a)

  -- What follows the update, which may fail.
  unfoldable pub decision_saved :
      Decision → ℕ → ℕ → ℕ → Option String → Option Err → D (Result ApprovalRequest)
  unfolding announce
  decision_saved decision organization id approver reason (some e) =
      return (err (wrap "failed to update approval" e))
  decision_saved decision organization id approver reason none = do
    r ← get_approval_by_id host organization id
    announce decision approver reason r

  -- What follows the checks.
  unfoldable pub decision_checked :
      Decision → ℕ → ℕ → ℕ → Option String → Option Err → D (Result ApprovalRequest)
  unfolding decision_saved
  decision_checked decision organization id approver reason (some e) = return (err e)
  decision_checked decision organization id approver reason none = do
    now ← ask host.now
    failure ←
        update_approval_status host organization id (decision_status decision) (some approver)
          reason (some now)
    decision_saved decision organization id approver reason failure

  unfoldable pub decision_loaded :
      Decision → ℕ → ℕ → ℕ → Option String → Result ApprovalRequest → D (Result ApprovalRequest)
  unfolding decision_checked decision_refusal
  decision_loaded decision organization id approver reason (err e) =
      return (err (wrap "failed to get approval" e))
  decision_loaded decision organization id approver reason (ok a) = do
    now ← ask host.now
    decision_checked decision organization id approver reason (decision_refusal a now)

  unfoldable pub decide_request : Decision → ℕ → ℕ → ℕ → Option String → D (Result ApprovalRequest)
  unfolding decision_loaded
  decide_request decision organization id approver reason = do
    r ← get_approval_by_id host organization id
    decision_loaded decision organization id approver reason r

  unfoldable pub approve_request : ℕ → ℕ → ℕ → Option String → D (Result ApprovalRequest)
  unfolding decide_request
  approve_request = decide_request approve

  unfoldable pub reject_request : ℕ → ℕ → ℕ → Option String → D (Result ApprovalRequest)
  unfolding decide_request
  reject_request = decide_request reject

  -- The row is inserted; the approver is told.
  unfoldable pub request_saved : ApprovalRequest → Option Err → D (Result ApprovalRequest)
  request_saved a (some e) = return (err (wrap "failed to create approval" e))
  request_saved a none = do effect host.has_notifications (request_notified a); return (ok a)

  unfoldable pub insert_request : ApprovalRequest → D (Result ApprovalRequest)
  unfolding request_saved
  insert_request a = do failure ← create_approval host a; request_saved a failure

  -- `time.Now().Add(*expiresIn)`, where it is given
  abbrev pub expiration : Option ℤ → D (Option ℕ)
  expiration none = return none
  expiration (some d) = do now ← ask host.now; return (some (host.add now d))

  unfoldable pub create_approval_request :
      ℕ → String → String → Option ℕ → String → String → Option ℤ → D (Result ApprovalRequest)
  unfolding insert_request
  create_approval_request execution entity entity_id requester role reason expires_in = do
    id ← ask host.new_id
    short ← ask host.short_id
    now ← ask host.now
    expires_at ← expiration expires_in
    insert_request
        (new_request id short execution entity entity_id requester role reason now expires_at)

  -- One approval of the loop of `ExpireOldApprovals`; the error is only logged, and the notification
  -- carries the row as it was read before the update.
  abbrev pub expire_saved : ApprovalRequest → Option Err → D (Unit {0})
  expire_saved a failure =
      effect (not (is_some failure) && host.has_notifications) (decision_notified a)

  unfoldable pub expire_all : ℕ → List ApprovalRequest → D (Unit {0})
  expire_all now [] = return tt
  expire_all now (a ∷ rest) = do
    failure ← update_approval_status host a.organization_id a.id expired none none (some now)
    expire_saved a failure
    expire_all now rest

  unfoldable pub expire_loaded : Result (List ApprovalRequest) → D (Option Err)
  unfolding expire_all
  expire_loaded (err e) = return (some (wrap "failed to list approvals" e))
  expire_loaded (ok approvals) = do now ← ask host.now; expire_all now approvals; return none

  unfoldable pub expire_old_approvals : D (Option Err)
  unfolding expire_loaded
  expire_old_approvals = do r ← get_expired_approvals host 0 1000; expire_loaded r
