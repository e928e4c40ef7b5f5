-- ===== src/Approval/Paging.antt =====
-- The pages of approval requests that `ListApprovals` (internal/repository/postgres/approval_repository.go)
-- returns, where the database does not fail.
use intelligent_workflows.Prelude.{
  ℕ, suc, ◌-◌, Bool, true, ◌≡◌, ◌↔◌, refl, sym, ap, ◌∙◌, subst, ◌&&◌, List, ◌++◌, Option, none,
  some, if◌then◌else◌, leb, Err, Result, ok, err, Has, Distinct, arith, length, nat_eq,
}
use intelligent_workflows.Value.{pos}
use intelligent_workflows.Models.Approval.{ApprovalStatus, pending, ApprovalRequest}
use intelligent_workflows.Approval.Store.{
  Host, Desk, all_rows, same_status, select_all, order_by, take, drop,
}
use intelligent_workflows.Approval.Selection.{
  Has-order_by, Has-select_all, length-take, length-drop, length-order_by,
}
use intelligent_workflows.Approval.Sorting.{
  IsDescending, take-drop, order_by-Has, select_all-Has, order_by-IsDescending, order_by-Distinct,
  select_all-Distinct,
}
use intelligent_workflows.Approval.Table.{ids, nat_eq_iff}
use intelligent_workflows.Approval.Listing.{
  has_status, has_approver, is_approver, is_listed, latest_first, counted, list_page, list_counted,
  list_approvals, list_pending_approvals,
}

abbrev pub HasStatus : Option ApprovalStatus → ApprovalRequest → Type 0
HasStatus none r = Unit
HasStatus (some s) r = r.status ≡ s

abbrev pub HasApprover : Option ℕ → ApprovalRequest → Type 0
HasApprover none r = Unit
HasApprover (some id) r = r.approver_id ≡ some id

-- A row of the organization, with the status and the approver, where those are given.
abbrev pub IsListed : ℕ → Option ApprovalStatus → Option ℕ → ApprovalRequest → Type 0
IsListed o status approver r = (r.organization_id ≡ o) × HasStatus status r × HasApprover approver r

-- All the rows with a property, each once, the latest first.
abbrev pub IsAnswer :
    (ApprovalRequest → Type 0) → List ApprovalRequest → List ApprovalRequest → Type 0
IsAnswer P rows answer =
    ((a : ApprovalRequest) → Has a answer ↔ (Has a rows × P a))
    × Distinct (ids answer)
    × IsDescending answer

abbrev pub least : ℕ → ℕ → ℕ
least m n = if leb m n then m else n

-- The page stands in such an answer after as many rows as the offset says, or all, and has as many rows
-- as the limit says, or all that are left; the total is the number of all rows of the answer.
abbrev pub IsPage :
    (ApprovalRequest → Type 0)
    → ℕ
    → ℕ
    → List ApprovalRequest
    → Result (List ApprovalRequest × ℕ)
    → Type 0
IsPage P limit offset rows (err e) = ⊥
IsPage P limit offset rows (ok (page, total)) =
    (before : List ApprovalRequest) × (after : List ApprovalRequest) × IsAnswer P rows
      (before ++ (page ++ after))
    × (total ≡ length (before ++ (page ++ after)))
    × (length before ≡ least total offset)
    × (length page ≡ least (total - offset) limit)

same_status_iff : (s t : ApprovalStatus) → (same_status s t ≡ true) ↔ (s ≡ t)
same_status_iff s t = ground arith

has_status_iff :
    (status : Option ApprovalStatus) (r : ApprovalRequest)
    → (has_status status r ≡ true) ↔ HasStatus status r
has_status_iff none r = (λ h. tt, λ h. refl)
has_status_iff (some s) r = same_status_iff r.status s

is_approver_iff :
    (id : ℕ) (approver : Option ℕ) → (is_approver id approver ≡ true) ↔ (approver ≡ some id)
is_approver_iff id none = ground arith
is_approver_iff id (some j) = ground arith

has_approver_iff :
    (approver : Option ℕ) (r : ApprovalRequest)
    → (has_approver approver r ≡ true) ↔ HasApprover approver r
has_approver_iff none r = (λ h. tt, λ h. refl)
has_approver_iff (some id) r = is_approver_iff id r.approver_id

and_iff : (a b : Bool) → ((a && b) ≡ true) ↔ ((a ≡ true) × (b ≡ true))
and_iff a b = ground arith

is_listed_iff :
    (o : ℕ) (status : Option ApprovalStatus) (approver : Option ℕ) (r : ApprovalRequest)
    → (is_listed o status approver r ≡ true) ↔ IsListed o status approver r
is_listed_iff o status approver r =
    let outer =
      and_iff (nat_eq r.organization_id o) (has_status status r && has_approver approver r) in
    let inner = and_iff (has_status status r) (has_approver approver r) in
    let s = has_status_iff status r in
    let a = has_approver_iff approver r in
    (
      λ h.
          let (e, k) = outer.0 h in
          let (f, g) = inner.0 k in (nat_eq_iff r.organization_id o e, s.0 f, a.0 g),
      λ (e, f, g). outer.1 (ground (arith, e), inner.1 (s.1 f, a.1 g)),
    )

module _ (p : ApprovalRequest → Bool) (P : ApprovalRequest → Type 0)
    (same : (a : ApprovalRequest) → (p a ≡ true) ↔ P a) where
  select_all-IsAnswer :
      (rows : List ApprovalRequest)
      → Distinct (ids rows)
      → IsAnswer P rows (order_by latest_first (select_all p rows))
  select_all-IsAnswer rows d = (
    λ a. (
      λ m.
          let (n, e) =
            Has-select_all p rows a (Has-order_by latest_first (select_all p rows) a m) in
          (n, (same a).0 e),
      λ (n, e). order_by-Has (select_all p rows) a (select_all-Has p rows a n ((same a).1 e)),
    ),
    order_by-Distinct (select_all p rows) (select_all-Distinct p rows d),
    order_by-IsDescending (select_all p rows),
  )

  -- The answer in three parts.
  parts :
      (limit offset : ℕ) (answer : List ApprovalRequest)
      → take offset answer ++ (take limit (drop offset answer) ++ drop limit (drop offset answer))
        ≡ answer
  parts limit offset answer =
      ap (λ l. take offset answer ++ l) (take-drop limit (drop offset answer))
      ∙ take-drop offset answer

  take-IsPage :
      (limit offset : ℕ) (rows : List ApprovalRequest)
      → Distinct (ids rows)
      → IsPage P limit offset rows (
          ok (
            take limit (drop offset (order_by latest_first (select_all p rows))),
            length (select_all p rows),
          ))
  take-IsPage limit offset rows d =
      let answer = order_by latest_first (select_all p rows) in
      let total = length-order_by latest_first (select_all p rows) in
      (
        take offset answer,
        drop limit (drop offset answer),
        subst (IsAnswer P rows) (sym (parts limit offset answer)) (select_all-IsAnswer rows d),
        sym total ∙ ap length (sym (parts limit offset answer)),
        length-take offset answer ∙ ap (λ n. least n offset) total,
        length-take limit (drop offset answer)
            ∙ ap (λ n. least n limit) (length-drop offset answer ∙ ap (λ n. n - offset) total),
      )

  module _ (host : Host) (limit offset : ℕ) (d : Desk) where
    counted-IsPage :
        (failure : Option Err)
        → Distinct (ids d.rows)
        → failure ≡ none
        → host.query_error d.calls ≡ none
        → host.reading d.calls ≡ all_rows
        → IsPage P limit offset d.rows
            (list_counted host p
              (pos limit)
              (pos offset)
              (counted failure (length (select_all p d.rows)))
              d).0
    unfolding list_counted list_page
    counted-IsPage (some e) k f g h = cc
    counted-IsPage none k f g h = rw (g, h) (take-IsPage limit offset d.rows k)

-- Where the IDs in the table are distinct and the database fails in none of the two queries,
-- `ListApprovals` returns a page and a total, and so does `ListPendingApprovals`, with the status
-- pending. The page stands in the list of exactly the rows of the table that have the given
-- organization, status and approver, where those are given, each once, the latest request first: it
-- begins after as many of them as the offset says, or after all, and has as many as the limit says, or
-- all that are left. The total is the number of all of them.
pub list_approvals-IsPage :
    (host : Host) (o : ℕ) (status : Option ApprovalStatus) (approver : Option ℕ) (limit offset : ℕ)
    (d : Desk)
    → Distinct (ids d.rows)
    → host.query_error d.calls ≡ none
    → host.query_error (suc d.calls) ≡ none
    → host.reading (suc d.calls) ≡ all_rows
    → IsPage
        (IsListed o status approver)
        limit
        offset
        d.rows
        (list_approvals host o status approver (pos limit) (pos offset) d).0
      × IsPage
          (IsListed o (some pending) approver)
          limit
          offset
          d.rows
          (list_pending_approvals host o approver (pos limit) (pos offset) d).0
unfolding list_approvals list_pending_approvals
list_approvals-IsPage host o status approver limit offset d k c q r = (
  counted-IsPage (is_listed o status approver) (IsListed o status approver)
      (is_listed_iff o status approver) host limit offset (record d { calls = suc d.calls })
      (host.query_error d.calls) k c q r,
  counted-IsPage (is_listed o (some pending) approver) (IsListed o (some pending) approver)
      (is_listed_iff o (some pending) approver) host limit offset (record d { calls = suc d.calls })
      (host.query_error d.calls) k c q r,
)
