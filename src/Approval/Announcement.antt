-- ===== src/Approval/Announcement.antt =====
-- Whom `ApproveRequest` and `RejectRequest` (internal/services/approval_service.go) call.
use intelligent_workflows.Prelude.{
  ℕ, suc, String, Bool, true, false, if◌then◌else◌, [], ◌∷◌, ◌++◌, ◌≡◌, refl, sym, ap, ◌∙◌, List,
  Option, none, some, Err, Result, ok, err, Has, some_inj, arith,
}
use intelligent_workflows.Models.Approval.{ApprovalRequest}
use intelligent_workflows.Approval.Store.{
  Host, Desk, Effect, approval_audited, rejection_audited, decision_notified, workflow_resumed,
  in_scope, select, updated, found, get_approval_by_id, update_approval_status, update_answer,
}
use intelligent_workflows.Approval.Service.{
  added, Decision, approve, reject, decision_status, is_approve, audited, decision_refusal,
  announce, decision_saved, decision_checked, decision_loaded, decide_request,
}
use intelligent_workflows.Approval.Table.{found-ok, select-Has, select-update_rows}
use intelligent_workflows.Approval.Decision.{
  IsOpen, decided_at_time, outcome, decision_refusal-IsOpen,
}

-- A call to a service, if it is configured.
abbrev pub when : Bool → Effect → List Effect
when configured e = if configured then e ∷ [] else []

-- The calls after a decision, the last one first.
abbrev pub told : Host → Decision → ℕ → Option String → ApprovalRequest → List Effect → List Effect
told host approve approver reason a earlier =
    when host.has_notifications (decision_notified a)
    ++ (when host.has_resumer (workflow_resumed a.execution_id true)
        ++ (when host.has_audit (approval_audited a.id approver reason) ++ earlier))
told host reject approver reason a earlier =
    when host.has_notifications (decision_notified a)
    ++ (when host.has_resumer (workflow_resumed a.execution_id false)
        ++ (when host.has_audit (rejection_audited a.id approver reason) ++ earlier))

added-when :
    (configured : Bool) (e : Effect) (l : List Effect)
    → added configured e l ≡ when configured e ++ l
added-when true e l = refl
added-when false e l = refl

added-told :
    (n r a : Bool) (x y z : Effect) (l : List Effect)
    → added n x (added r y (added a z l)) ≡ when n x ++ (when r y ++ (when a z ++ l))
added-told n r a x y z l =
    added-when n x _
    ∙ ap (λ k. when n x ++ k) (added-when r y _ ∙ ap (λ k. when r y ++ k) (added-when a z l))

module _ (host : Host) (decision : Decision) (o i approver : ℕ) (reason : Option String) where
  -- After an error no other service has been called. A returned approval is a row that was open at the
  -- time of the check, with the decision; it is in the table, and the other services have been told.
  abbrev pub Announced : Desk → Result ApprovalRequest → Desk → Type 0
  Announced before (err e) after = after.effects ≡ before.effects
  Announced before (ok a) after =
      (b : ApprovalRequest) × Has b before.rows
      × IsOpen o i (host.now (suc before.calls)) b
      × (a ≡ outcome decision approver reason (host.now (suc (suc before.calls))) b)
      × Has a after.rows
      × (after.effects ≡ told host decision approver reason a before.effects)

  -- The same with the functions of the service, at the times of the check and of the update.
  abbrev pub IsSettled : ℕ → ℕ → Desk → Result ApprovalRequest → Desk → Type 0
  IsSettled checked at before (err e) after = after.effects ≡ before.effects
  IsSettled checked at before (ok a) after =
      (b : ApprovalRequest) × Has b before.rows
      × IsOpen o i checked b
      × (a ≡ decided_at_time decision approver reason at b)
      × Has a after.rows
      × (after.effects
          ≡ added host.has_notifications (decision_notified a) (
              added host.has_resumer (workflow_resumed a.execution_id (is_approve decision))
                (added host.has_audit (audited decision a.id approver reason) before.effects)))

  -- What is known when the row is read back after the decision.
  announce-IsSettled :
      (before : Desk) (r : Result ApprovalRequest) (d : Desk) (b : ApprovalRequest) (checked at : ℕ)
      → d.effects ≡ before.effects
      → Has b before.rows
      → IsOpen o i checked b
      → ((a : ApprovalRequest)
          → r ≡ ok a
          → (a ≡ decided_at_time decision approver reason at b) × Has a d.rows)
      → IsSettled checked at before
          (announce host decision approver reason r d).0
          (announce host decision approver reason r d).1
  unfolding announce
  announce-IsSettled before (err e) d b checked at same member may h = same
  announce-IsSettled before (ok a) d b checked at same member may h = (
    b,
    member,
    may,
    (h a refl).0,
    (h a refl).1,
    ap
        (λ l. added host.has_notifications (decision_notified a) (
          added host.has_resumer (workflow_resumed a.execution_id (is_approve decision))
            (added host.has_audit (audited decision a.id approver reason) l)))
        same,
  )

  -- The update of an open row, which may fail.
  saved-IsSettled :
      (before : Desk) (failure : Option Err) (d : Desk) (b : ApprovalRequest) (checked at : ℕ)
      → d.effects ≡ before.effects
      → Has b before.rows
      → IsOpen o i checked b
      → (failure ≡ none
          → select (in_scope o i) d.rows ≡ some (decided_at_time decision approver reason at b))
      → IsSettled checked at before
          (decision_saved host decision o i approver reason failure d).0
          (decision_saved host decision o i approver reason failure d).1
  unfolding decision_saved get_approval_by_id
  saved-IsSettled before (some e) d b checked at same member may h = same
  saved-IsSettled before none d b checked at same member may h =
      announce-IsSettled before _ (record d { calls = suc d.calls }) b checked at same member may
        (λ a e.
          let q : select (in_scope o i) d.rows ≡ some a =
            found-ok (host.query_error d.calls) _ a e in
          (some_inj (sym q ∙ h refl), (select-Has (in_scope o i) d.rows a q).0))

  -- An update without an error.
  pub updated-selected :
      (failed : String) (failure count : Option Err) (nothing : Bool) (rows : List ApprovalRequest)
      (b : ApprovalRequest) (at : ℕ)
      → select (in_scope o i) rows ≡ some b
      → update_answer failed failure count nothing ≡ none
      → select
          (in_scope o i)
          (updated failure o i (decided_at_time decision approver reason at) rows)
        ≡ some (decided_at_time decision approver reason at b)
  updated-selected failed (some x) count nothing rows b at h e = ground arith
  updated-selected failed none count nothing rows b at h e =
      select-update_rows o i (decision_status decision) (some approver) reason (some at) rows b h

  checked-IsSettled :
      (before : Desk) (refusal : Option Err) (d : Desk) (b : ApprovalRequest) (checked : ℕ)
      → d.rows ≡ before.rows
      → d.effects ≡ before.effects
      → select (in_scope o i) before.rows ≡ some b
      → decision_refusal b checked ≡ refusal
      → IsSettled checked
          (host.now d.calls)
          before
          (decision_checked host decision o i approver reason refusal d).0
          (decision_checked host decision o i approver reason refusal d).1
  unfolding decision_checked update_approval_status
  checked-IsSettled before (some e) d b checked rows effects h k = effects
  checked-IsSettled before none d b checked rows effects h k =
      let at = host.now d.calls in
      let (member, scope) = select-Has (in_scope o i) before.rows b h in
      let failure = host.query_error (suc d.calls) in
      saved-IsSettled before _
        (record d {
          calls = suc (suc d.calls);
          rows = updated failure o i (decided_at_time decision approver reason at) d.rows;
        })
        b checked at effects member (decision_refusal-IsOpen o i checked b scope k)
        (λ e.
          updated-selected "failed to update approval status" failure _ _ d.rows b at
            (ap (select (in_scope o i)) rows ∙ h) e)

  loaded-IsSettled :
      (before : Desk) (r : Result ApprovalRequest) (d : Desk)
      → d.rows ≡ before.rows
      → d.effects ≡ before.effects
      → ((a : ApprovalRequest) → r ≡ ok a → select (in_scope o i) before.rows ≡ some a)
      → IsSettled
          (host.now d.calls)
          (host.now (suc d.calls))
          before
          (decision_loaded host decision o i approver reason r d).0
          (decision_loaded host decision o i approver reason r d).1
  unfolding decision_loaded
  loaded-IsSettled before (err e) d rows effects h = effects
  loaded-IsSettled before (ok b) d rows effects h =
      checked-IsSettled before (decision_refusal b (host.now d.calls))
        (record d { calls = suc d.calls }) b (host.now d.calls) rows effects (h b refl) refl

  pub decide_request-IsSettled :
      (d : Desk)
      → IsSettled
          (host.now (suc d.calls))
          (host.now (suc (suc d.calls)))
          d
          (decide_request host decision o i approver reason d).0
          (decide_request host decision o i approver reason d).1
  unfolding decide_request get_approval_by_id
  decide_request-IsSettled d =
      loaded-IsSettled d (found (host.query_error d.calls) (select (in_scope o i) d.rows))
        (record d { calls = suc d.calls }) refl refl
        (λ a e. found-ok (host.query_error d.calls) _ a e)

IsSettled-Announced :
    (host : Host) (decision : Decision) (o i approver : ℕ) (reason : Option String) (before : Desk)
    (r : Result ApprovalRequest) (after : Desk)
    → IsSettled host decision o i approver reason
        (host.now (suc before.calls))
        (host.now (suc (suc before.calls)))
        before
        r
        after
    → Announced host decision o i approver reason before r after
IsSettled-Announced host decision o i approver reason before (err e) after h = h
IsSettled-Announced host approve o i approver reason before (ok a) after (b, m, k, e, n, f) = (
  b,
  m,
  k,
  e,
  n,
  f
      ∙ added-told host.has_notifications host.has_resumer host.has_audit (decision_notified a)
          (workflow_resumed a.execution_id true) (approval_audited a.id approver reason)
          before.effects,
)
IsSettled-Announced host reject o i approver reason before (ok a) after (b, m, k, e, n, f) = (
  b,
  m,
  k,
  e,
  n,
  f
      ∙ added-told host.has_notifications host.has_resumer host.has_audit (decision_notified a)
          (workflow_resumed a.execution_id false) (rejection_audited a.id approver reason)
          before.effects,
)

-- Deciding a request either returns an error, and no other service has been called: no workflow is
-- resumed, nothing is audited, nobody is notified. Or it returns a row of the table that has the given
-- organization and ID, was pending, and was not past its expiry at the time that the clock gives right
-- after the row is read, now approved or rejected as decided, with the approver, the reason and the
-- time that the clock gives next. It is in the table so, and exactly the services that are configured
-- have been called, once each: the audit of an approval or of a rejection, the resumption of the
-- execution of the request, with true for an approval and false for a rejection, and the notification.
pub decide_request-Announced :
    (host : Host) (decision : Decision) (o i approver : ℕ) (reason : Option String) (d : Desk)
    → Announced host decision o i approver reason d
        (decide_request host decision o i approver reason d).0
        (decide_request host decision o i approver reason d).1
decide_request-Announced host decision o i approver reason d =
    IsSettled-Announced host decision o i approver reason d _ _
      (decide_request-IsSettled host decision o i approver reason d)
