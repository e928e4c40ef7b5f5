-- ===== src/Approval/Decision.antt =====
-- What `ApproveRequest` and `RejectRequest` (internal/services/approval_service.go) do to the table
-- and whom they call.
use intelligent_workflows.Prelude.{
  ℕ, suc, ◌≤◌, String, true, arith, ◌≡◌, refl, sym, ◌∙◌, subst, List, Option, none, some, inl, inr,
  Err, Result, ok, err, Has, Distinct, Pointwise,
}
use intelligent_workflows.Models.Approval.{
  ApprovalStatus, pending, approved, rejected, ApprovalRequest,
}
use intelligent_workflows.Approval.Store.{
  Host, Desk, is_pending, in_scope, select, decided, updated, found, get_approval_by_id,
  update_approval_status,
}
use intelligent_workflows.Approval.Service.{
  Decision, approve, reject, decision_status, decision_refusal, announce, decision_saved,
  decision_checked, decision_loaded, decide_request,
}
use intelligent_workflows.Approval.Table.{
  updated-cases, found-ok, Changed, ids, in_scope-id, in_scope-organization, Has-same, select-Has,
  update_rows-Changed, Pointwise-refl,
}

-- There is no expiry, or the time is not past it.
abbrev pub IsInTime : Option ℕ → ℕ → Type 0
IsInTime none now = Unit
IsInTime (some t) now = now ≤ t

-- The row is the one with the key; it is pending, and the time is not past its expiry.
abbrev pub IsOpen : ℕ → ℕ → ℕ → ApprovalRequest → Type 0
IsOpen o i now r =
    (r.organization_id ≡ o) × (r.id ≡ i) × (r.status ≡ pending) × IsInTime r.expires_at now

pub is_pending-pending : (s : ApprovalStatus) → is_pending s ≡ true → s ≡ pending
is_pending-pending ApprovalStatus.pending h = refl
is_pending-pending ApprovalStatus.approved h = cc
is_pending-pending ApprovalStatus.rejected h = cc
is_pending-pending ApprovalStatus.expired h = cc

in_time :
    (expires_at : Option ℕ) (now : ℕ) (a : ApprovalRequest)
    → a.expires_at ≡ expires_at
    → is_pending a.status ≡ true
    → decision_refusal a now ≡ none
    → IsInTime expires_at now
unfolding decision_refusal
in_time none now a e p h = tt
in_time (some t) now a e p h = ground arith

decision_refusal-pending :
    (a : ApprovalRequest) (now : ℕ) → decision_refusal a now ≡ none → is_pending a.status ≡ true
unfolding decision_refusal
decision_refusal-pending a now h = ground arith

-- The checks of the code let open rows pass only.
pub decision_refusal-IsOpen :
    (o i now : ℕ) (a : ApprovalRequest)
    → in_scope o i a ≡ true
    → decision_refusal a now ≡ none
    → IsOpen o i now a
decision_refusal-IsOpen o i now a e h =
    let p = decision_refusal-pending a now h in
    (
      in_scope-organization o i a e,
      in_scope-id o i a e,
      is_pending-pending a.status p,
      in_time a.expires_at now a refl p h,
    )

abbrev pub decided_at_time : Decision → ℕ → Option String → ℕ → ApprovalRequest → ApprovalRequest
decided_at_time decision approver reason at =
    decided (decision_status decision) (some approver) reason (some at)

-- The row with the decision: nothing else of it changes.
abbrev pub outcome : Decision → ℕ → Option String → ℕ → ApprovalRequest → ApprovalRequest
outcome approve approver reason at r = record r {
  status = approved;
  approver_id = some approver;
  decision_reason = reason;
  decided_at = some at;
}
outcome reject approver reason at r = record r {
  status = rejected;
  approver_id = some approver;
  decision_reason = reason;
  decided_at = some at;
}

-- Each row is as before, or it is the row with the given key, was open at the time of the check, which
-- is the call after the row is read, and has the decision with the time of the next call.
abbrev pub OnlyDecides : Host → Decision → ℕ → ℕ → ℕ → Option String → Desk → Desk → Type 0
OnlyDecides host decision o i approver reason before after =
    Pointwise
      (Changed (IsOpen o i (host.now (suc before.calls)))
        (outcome decision approver reason (host.now (suc (suc before.calls)))))
      before.rows after.rows

-- The same with the fields that the update sets.
abbrev pub OnlyUpdates :
    Decision
    → ℕ
    → ℕ
    → ℕ
    → Option String
    → ℕ
    → ℕ
    → List ApprovalRequest
    → List ApprovalRequest
    → Type 0
OnlyUpdates decision o i approver reason checked at =
    Pointwise (Changed (IsOpen o i checked) (decided_at_time decision approver reason at))

module _ (host : Host) (decision : Decision) (o i approver : ℕ) (reason : Option String) where
  unchanged :
      (checked at : ℕ) (rows : List ApprovalRequest)
      → OnlyUpdates decision o i approver reason checked at rows rows
  unchanged checked at =
      Pointwise-refl (IsOpen o i checked) (decided_at_time decision approver reason at)

  announce-rows :
      (r : Result ApprovalRequest) (d : Desk)
      → (announce host decision approver reason r d).1.rows ≡ d.rows
  unfolding announce
  announce-rows (err e) d = refl
  announce-rows (ok a) d = refl

  pub saved-rows :
      (failure : Option Err) (d : Desk)
      → (decision_saved host decision o i approver reason failure d).1.rows ≡ d.rows
  unfolding decision_saved get_approval_by_id
  saved-rows (some e) d = refl
  saved-rows none d = announce-rows _ (record d { calls = suc d.calls })

  -- The row that is read is open, and it is the only one in the scope.
  IsOpen-rows :
      (rows : List ApprovalRequest) (a : ApprovalRequest) (checked : ℕ)
      → Distinct (ids rows)
      → select (in_scope o i) rows ≡ some a
      → decision_refusal a checked ≡ none
      → (r : ApprovalRequest) → Has r rows
      → in_scope o i r ≡ true
      → IsOpen o i checked r
  IsOpen-rows rows a checked distinct h k r m e =
      let (member, scope) = select-Has (in_scope o i) rows a h in
      let same : r ≡ a =
        Has-same a r rows distinct member m (in_scope-id o i r e ∙ sym (in_scope-id o i a scope)) in
      decision_refusal-IsOpen o i checked r e
        (subst (λ x. decision_refusal x checked ≡ none) (sym same) k)

  checked-rows :
      (refusal : Option Err) (d : Desk) (a : ApprovalRequest) (checked : ℕ)
      → Distinct (ids d.rows)
      → select (in_scope o i) d.rows ≡ some a
      → decision_refusal a checked ≡ refusal
      → OnlyUpdates decision o i approver reason checked
          (host.now d.calls)
          d.rows
          (decision_checked host decision o i approver reason refusal d).1.rows
  unfolding decision_checked update_approval_status
  checked-rows (some e) d a checked distinct h k = unchanged checked (host.now d.calls) d.rows
  checked-rows none d a checked distinct h k =
      let at = host.now d.calls in
      let failure = host.query_error (suc d.calls) in
      let rows = updated failure o i (decided_at_time decision approver reason at) d.rows in
      let Q = OnlyUpdates decision o i approver reason checked at d.rows in
      subst Q (sym (saved-rows _ (record d { calls = suc (suc d.calls); rows = rows })))
        (elim (updated-cases "failed to update approval status" failure none true o i
          (decided_at_time decision approver reason at) d.rows) [
            | inl (_, e) ↦ subst Q (sym e) (unchanged checked at d.rows)
            | inr e ↦ subst Q (sym e) (
                update_rows-Changed o i (decision_status decision) (some approver) reason (some at)
                  (IsOpen o i checked) d.rows d.rows (IsOpen-rows d.rows a checked distinct h k)
                  (unchanged checked at d.rows))
          ])

  loaded-rows :
      (r : Result ApprovalRequest) (d : Desk)
      → Distinct (ids d.rows)
      → ((a : ApprovalRequest) → r ≡ ok a → select (in_scope o i) d.rows ≡ some a)
      → OnlyUpdates decision o i approver reason
          (host.now d.calls)
          (host.now (suc d.calls))
          d.rows
          (decision_loaded host decision o i approver reason r d).1.rows
  unfolding decision_loaded
  loaded-rows (err e) d distinct h = unchanged (host.now d.calls) (host.now (suc d.calls)) d.rows
  loaded-rows (ok a) d distinct h =
      checked-rows (decision_refusal a (host.now d.calls)) (record d { calls = suc d.calls }) a
        (host.now d.calls) distinct (h a refl) refl

  pub decide_request-OnlyUpdates :
      (d : Desk)
      → Distinct (ids d.rows)
      → OnlyUpdates decision o i approver reason
          (host.now (suc d.calls))
          (host.now (suc (suc d.calls)))
          d.rows
          (decide_request host decision o i approver reason d).1.rows
  unfolding decide_request get_approval_by_id
  decide_request-OnlyUpdates d distinct =
      loaded-rows (found (host.query_error d.calls) (select (in_scope o i) d.rows))
        (record d { calls = suc d.calls }) distinct
        (λ a e. found-ok (host.query_error d.calls) _ a e)

-- Where the IDs in the table are distinct, deciding a request of an organization changes at most one
-- row: the row of that organization with that ID, only if it was pending and the time that the clock
-- gives right after the row is read is not past its expiry. It becomes approved or rejected, as
-- decided, gets the approver, the reason and the time that the clock gives next, and keeps all other
-- fields.
pub decide_request-OnlyDecides :
    (host : Host) (decision : Decision) (o i approver : ℕ) (reason : Option String) (d : Desk)
    → Distinct (ids d.rows)
    → OnlyDecides host decision o i approver reason d
        (decide_request host decision o i approver reason d).1
decide_request-OnlyDecides host approve = decide_request-OnlyUpdates host approve
decide_request-OnlyDecides host reject = decide_request-OnlyUpdates host reject
