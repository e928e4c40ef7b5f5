-- ===== src/Examples/Approvals.antt =====
-- The theorems about approval requests, at a concrete table.
use intelligent_workflows.Prelude.{
  ℕ, ◌≡◌, refl, true, List, [], ◌∷◌, none, some, inl, inr, ok, nat_eq, Distinct,
}
use intelligent_workflows.Value.{pos}
use intelligent_workflows.Models.Approval.{ApprovalStatus, pending, approved, ApprovalRequest}
use intelligent_workflows.Approval.Store.{Host, Desk, all_rows, select, in_scope}
use intelligent_workflows.Approval.Service.{
  approve, reject, decide_request, decision_checked, create_approval_request, expire_old_approvals,
}
use intelligent_workflows.Approval.Table.{ids}
use intelligent_workflows.Approval.Decision.{
  OnlyDecides, decided_at_time, decide_request-OnlyDecides,
}
use intelligent_workflows.Approval.Announcement.{Announced, decide_request-Announced}
use intelligent_workflows.Approval.Expiry.{OnlyExpires, expire_old_approvals-OnlyExpires}
use intelligent_workflows.Approval.Creation.{IsErr, create_approval_request-IsErr}
use intelligent_workflows.Approval.History.{
  Operation, decide, create, expire, run, Evolves, run-Evolves,
}
use intelligent_workflows.Approval.Listing.{list_approvals, list_pending_approvals}
use intelligent_workflows.Approval.Paging.{IsListed, IsPage, list_approvals-IsPage}
use intelligent_workflows.Approval.Late.{decision_checked-overwrites}

abbrev host : Host
host = record {
  now = λ n. n;
  add = λ t d. elim d [ pos n ↦ n | _ ↦ t ];
  new_id = λ n. n;
  short_id = λ n. "1234abcd";
  database_now = λ n. 100;
  query_error = λ n. none;
  reading = λ n. all_rows;
  count_error = λ n. none;
  is_organization = λ o. nat_eq o 7;
  is_execution = λ e. true;
  has_notifications = true;
  has_resumer = true;
  has_audit = true;
}

abbrev request : ℕ → ℕ → ApprovalStatus → ApprovalRequest
request id organization status = record {
  id = id;
  organization_id = organization;
  request_id = "appr_0";
  execution_id = 5;
  entity_type = "order";
  entity_id = "o1";
  requester_id = none;
  approver_role = "manager";
  approver_id = none;
  status = status;
  reason = none;
  decision_reason = none;
  requested_at = 3;
  decided_at = none;
  expires_at = some 50;
}

abbrev desk : Desk
desk = record {
  calls = 0;
  rows = request 1 7 pending ∷ request 2 7 approved ∷ request 3 0 pending ∷ [];
  effects = [];
}

distinct : Distinct (ids desk.rows)
distinct = (
  λ m. elim m [ inl e ↦ cc | inr n ↦ elim n [ inl e ↦ cc | inr e ↦ e ] ],
  (λ m. elim m [ inl e ↦ cc | inr e ↦ e ], (λ m. m, tt)),
)

decide_request-OnlyDecides_example :
    OnlyDecides host approve 7 1 9 none desk (decide_request host approve 7 1 9 none desk).1
decide_request-OnlyDecides_example =
    decide_request-OnlyDecides host approve 7 1 9 none desk distinct

decide_request-Announced_example :
    Announced host reject 7 1 9 none desk
      (decide_request host reject 7 1 9 none desk).0
      (decide_request host reject 7 1 9 none desk).1
decide_request-Announced_example = decide_request-Announced host reject 7 1 9 none desk

expire_old_approvals-OnlyExpires_example :
    OnlyExpires host 0 desk (expire_old_approvals host desk).1
expire_old_approvals-OnlyExpires_example = expire_old_approvals-OnlyExpires host desk distinct

abbrev history : List Operation
history =
    decide approve 7 1 9 none
    ∷ create 5 "order" "o2" none "manager" "large" none
    ∷ expire
    ∷ decide reject 7 1 9 none
    ∷ []

run-Evolves_example :
    Distinct (ids (run host history desk).rows) × Evolves desk.rows (run host history desk).rows
run-Evolves_example = run-Evolves host history desk distinct

create_approval_request-IsErr_example :
    IsErr (create_approval_request host 5 "order" "o2" none "manager" "large" none desk).0
    × ((create_approval_request host 5 "order" "o2" none "manager" "large" none desk).1.rows
        ≡ desk.rows)
create_approval_request-IsErr_example =
    create_approval_request-IsErr host 5 "order" "o2" none "manager" "large" none desk refl

decision_checked-overwrites_example :
    ((decision_checked host reject 7 2 9 none none desk).0
      ≡ ok (decided_at_time reject 9 none 0 (request 2 7 approved)))
    × (select (in_scope 7 2) (decision_checked host reject 7 2 9 none none desk).1.rows
        ≡ some (decided_at_time reject 9 none 0 (request 2 7 approved)))
decision_checked-overwrites_example =
    decision_checked-overwrites host reject 7 2 9 none (request 2 7 approved) desk (λ n. refl)
      (λ n. refl) refl

list_approvals-IsPage_example :
    IsPage
      (IsListed 7 none none)
      1
      1
      desk.rows
      (list_approvals host 7 none none (pos 1) (pos 1) desk).0
    × IsPage
        (IsListed 7 (some pending) none)
        1
        1
        desk.rows
        (list_pending_approvals host 7 none (pos 1) (pos 1) desk).0
list_approvals-IsPage_example =
    list_approvals-IsPage host 7 none none 1 1 desk distinct refl refl refl
