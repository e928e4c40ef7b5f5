-- ===== src/Approval/Late.antt =====
-- Decisions of one request at the same time (internal/services/approval_service.go): the update does
-- not test the status that was checked.
use intelligent_workflows.Prelude.{
  ℕ, suc, String, true, false, ◌≡◌, refl, sym, ap, ◌∙◌, subst, Option, none, some, Err, ok, List,
  arith,
}
use intelligent_workflows.Models.Approval.{ApprovalRequest}
use intelligent_workflows.Approval.Store.{
  Host, Desk, in_scope, select, updated, updated_none, update_answer, found, get_approval_by_id,
  update_approval_status,
}
use intelligent_workflows.Approval.Service.{Decision, announce, decision_saved, decision_checked}
use intelligent_workflows.Approval.Decision.{decided_at_time, saved-rows}
use intelligent_workflows.Approval.Announcement.{updated-selected}

update_answer-none :
    (o i : ℕ) (failed : String) (failure count : Option Err) (rows : List ApprovalRequest)
    (b : ApprovalRequest)
    → failure ≡ none
    → count ≡ none
    → select (in_scope o i) rows ≡ some b
    → update_answer failed failure count (updated_none o i rows) ≡ none
update_answer-none o i failed (some e) count rows b f c h = ground arith
update_answer-none o i failed none (some e) rows b f c h = ground arith
update_answer-none o i failed none none rows b f c h =
    ap (λ r. update_answer failed none none (elim r [ none ↦ true | some a ↦ false ])) h

module _ (host : Host) (decision : Decision) (o i approver : ℕ) (reason : Option String) where
  saved-found :
      (b : ApprovalRequest) (d : Desk)
      → host.query_error d.calls ≡ none
      → select (in_scope o i) d.rows ≡ some b
      → (decision_saved host decision o i approver reason none d).0 ≡ ok b
  unfolding decision_saved get_approval_by_id announce
  saved-found b d e h =
      subst
        (λ r.
          (announce host decision approver reason r (record d { calls = suc d.calls })).0 ≡ ok b)
        (sym (ap (λ f. found f (select (in_scope o i) d.rows)) e ∙ ap (found none) h)) refl

  -- Where the database does not fail, a decision whose checks have passed is stored and returned
  -- whatever the status of the row is by then: a decision that another call stored in the meantime,
  -- or an expiration, is overwritten.
  pub decision_checked-overwrites :
      (b : ApprovalRequest) (d : Desk)
      → ((n : ℕ) → host.query_error n ≡ none)
      → ((n : ℕ) → host.count_error n ≡ none)
      → select (in_scope o i) d.rows ≡ some b
      → let (r, d') = decision_checked host decision o i approver reason none d in
        let new = decided_at_time decision approver reason (host.now d.calls) b in
        (r ≡ ok new) × (select (in_scope o i) d'.rows ≡ some new)
  unfolding decision_checked update_approval_status
  decision_checked-overwrites b d q c h =
      let at = host.now d.calls in
      let failure = host.query_error (suc d.calls) in
      let count = host.count_error (suc d.calls) in
      let rows = updated failure o i (decided_at_time decision approver reason at) d.rows in
      let d' = record d { calls = suc (suc d.calls); rows = rows } in
      let e =
        update_answer-none o i "failed to update approval status" failure count d.rows b
          (q (suc d.calls)) (c (suc d.calls)) h in
      let stored =
        updated-selected host decision o i approver reason "failed to update approval status"
          failure count (updated_none o i d.rows) d.rows b at h e in
      (
        subst
            (λ f.
              (decision_saved host decision o i approver reason f d').0
              ≡ ok (decided_at_time decision approver reason at b))
            (sym e)
            (saved-found (decided_at_time decision approver reason at b) d' (q (suc (suc d.calls)))
              stored),
        ap (select (in_scope o i)) (saved-rows host decision o i approver reason _ d') ∙ stored,
      )
