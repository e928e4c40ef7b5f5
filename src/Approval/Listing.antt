-- ===== src/Approval/Listing.antt =====
-- The queries of the table of approval requests that list rows
-- (internal/repository/postgres/approval_repository.go), and the functions of the service that pass
-- them on (internal/services/approval_service.go).
use intelligent_workflows.Prelude.{
  ℕ, suc, String, Bool, true, false, ◌&&◌, List, Option, none, some, nat_eq, leb, Err, msg, wrap,
  Result, ok, err, length,
}
use intelligent_workflows.Value.{ℤ, pos, negsuc}
use intelligent_workflows.Models.Approval.{ApprovalStatus, pending, ApprovalRequest}
use intelligent_workflows.Approval.Store.{
  Host, D, ◌>>=◌, return, same_status, select_all, order_by, take, drop, query_rows,
  get_approval_by_id,
}

-- `($2::varchar IS NULL OR status = $2)`
abbrev pub has_status : Option ApprovalStatus → ApprovalRequest → Bool
has_status none r = true
has_status (some s) r = same_status r.status s

-- `approver_id = $3`, which a null approver is not
abbrev pub is_approver : ℕ → Option ℕ → Bool
is_approver id none = false
is_approver id (some approver) = nat_eq approver id

-- `($3::uuid IS NULL OR approver_id = $3)`
abbrev pub has_approver : Option ℕ → ApprovalRequest → Bool
has_approver none r = true
has_approver (some id) r = is_approver id r.approver_id

abbrev pub is_listed : ℕ → Option ApprovalStatus → Option ℕ → ApprovalRequest → Bool
is_listed organization status approver r =
    nat_eq r.organization_id organization && (has_status status r && has_approver approver r)

-- `ORDER BY requested_at DESC`
abbrev pub latest_first : ApprovalRequest → ApprovalRequest → Bool
latest_first r s = leb s.requested_at r.requested_at

-- `SELECT COUNT(*)`
abbrev pub counted : Option Err → ℕ → Result ℕ
counted (some e) n = err (wrap "failed to count approvals" e)
counted none n = ok n

-- The rows and their total number, or an error.
abbrev pub with_total : ℕ → Result (List ApprovalRequest) → Result (List ApprovalRequest × ℕ)
with_total total (err e) = err e
with_total total (ok rows) = ok (rows, total)

abbrev pub or_error : Option Err → Err → Err
or_error none e = e
or_error (some x) e = x

module _ (host : Host) where
  abbrev pub count_rows : (ApprovalRequest → Bool) → D (Result ℕ)
  count_rows p d = (
    counted (host.query_error d.calls) (length (select_all p d.rows)),
    record d { calls = suc d.calls },
  )

  -- The query is an error, the database's own or the one with the given text.
  abbrev pub refuse_page : String → D (Result (List ApprovalRequest))
  refuse_page text d = (
    err (wrap "failed to list approvals" (or_error (host.query_error d.calls) (msg text))),
    record d { calls = suc d.calls },
  )

  -- `LIMIT` and `OFFSET`: the database refuses a negative number.
  unfoldable pub list_page : (ApprovalRequest → Bool) → ℤ → ℤ → D (Result (List ApprovalRequest))
  list_page p (pos limit) (pos offset) =
      query_rows host "failed to list approvals"
        (λ now rows. take limit (drop offset (order_by latest_first (select_all p rows))))
  list_page p (negsuc limit) offset = refuse_page "LIMIT must not be negative"
  list_page p (pos limit) (negsuc offset) = refuse_page "OFFSET must not be negative"

  unfoldable pub list_counted :
      (ApprovalRequest → Bool) → ℤ → ℤ → Result ℕ → D (Result (List ApprovalRequest × ℕ))
  unfolding list_page
  list_counted p limit offset (err e) = return (err e)
  list_counted p limit offset (ok total) = do
    rows ← list_page p limit offset
    return (with_total total rows)

  unfoldable pub list_approvals :
      ℕ → Option ApprovalStatus → Option ℕ → ℤ → ℤ → D (Result (List ApprovalRequest × ℕ))
  unfolding list_counted
  list_approvals organization status approver limit offset = do
    total ← count_rows (is_listed organization status approver)
    list_counted (is_listed organization status approver) limit offset total

  unfoldable pub list_pending_approvals :
      ℕ → Option ℕ → ℤ → ℤ → D (Result (List ApprovalRequest × ℕ))
  unfolding list_approvals
  list_pending_approvals organization approver limit offset =
      list_approvals organization (some pending) approver limit offset

  unfoldable pub get_approvals_by_execution : ℕ → ℕ → D (Result (List ApprovalRequest))
  get_approvals_by_execution organization execution =
      query_rows host "failed to get approvals" (λ now rows. order_by latest_first (
        select_all (λ r. nat_eq r.organization_id organization && nat_eq r.execution_id execution)
          rows))

  unfoldable pub get_approval : ℕ → ℕ → D (Result ApprovalRequest)
  unfolding get_approval_by_id
  get_approval = get_approval_by_id host
