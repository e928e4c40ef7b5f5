-- ===== src/Approval/Store.antt =====
-- The table of approval requests (internal/repository/postgres/approval_repository.go): what each
-- query does to the rows. The constraints are those of migrations/postgres: the two unique columns
-- and the references to an organization and to an execution. The database may fail at any call.
use intelligent_workflows.Prelude.{
  ℕ, zero, suc, String, Bool, true, false, ◌&&◌, ◌||◌, List, [], ◌∷◌, ◌++◌, map, Option, none, some,
  ◌==◌, if◌then◌else◌, nat_eq, ltb, leb, Err, msg, wrap, Result, ok, err,
}
use intelligent_workflows.Value.{ℤ}
use intelligent_workflows.Models.Approval.{ApprovalStatus, ApprovalRequest}

-- How the loop over the rows of a query ends: after all rows; after some of them, with an error that
-- only rows.Err would tell, which is not asked; or with the error of a Scan.
pub data Reading : Type 0 where
  all_rows : Reading
  ends_after : ℕ → Reading
  fails_at_row : Err → Reading

-- What the service and the repository call, numbered as the calls of the executor are.
pub record Host : Type 0 where
  pub now : ℕ → ℕ  -- time.Now()
  pub add : ℕ → ℤ → ℕ  -- t.Add(d)
  pub new_id : ℕ → ℕ  -- uuid.New()
  pub short_id : ℕ → String  -- uuid.New().String()[:8]
  pub database_now : ℕ → ℕ  -- NOW() in a query
  pub query_error : ℕ → Option Err  -- a query that fails and changes nothing
  pub reading : ℕ → Reading  -- rows.Next and rows.Scan
  pub count_error : ℕ → Option Err  -- RowsAffected
  pub is_organization : ℕ → Bool  -- the organization has a row
  pub is_execution : ℕ → Bool  -- the execution has a row
  pub has_notifications : Bool  -- notificationSvc != nil
  pub has_resumer : Bool  -- workflowResumer != nil
  pub has_audit : Bool  -- auditService != nil

-- The calls to other services, whose errors are only logged.
pub data Effect : Type 0 where
  request_notified decision_notified : ApprovalRequest → Effect
  approval_audited rejection_audited : ℕ → ℕ → Option String → Effect
  workflow_resumed : ℕ → Bool → Effect

-- `effects` has the last call first.
pub record Desk : Type 0 where
  pub calls : ℕ
  pub rows : List ApprovalRequest
  pub effects : List Effect

abbrev pub D : Type 0 → Type 0
D A = Desk → A × Desk

infixl 5 ◌>>=◌ ◌>>◌
abbrev pub ◌>>=◌ : {A B : Type 0} → D A → (A → D B) → D B
◌>>=◌ m f d = let (a, d') = m d in f a d'

abbrev pub ◌>>◌ : {B : Type 0} → D (Unit {0}) → D B → D B
m >> k = m >>= λ _. k

abbrev pub return : {A : Type 0} → A → D A
return a d = (a, d)

abbrev pub ask : {A : Type 0} → (ℕ → A) → D A
ask f d = (f d.calls, record d { calls = suc d.calls })

abbrev pub is_pending : ApprovalStatus → Bool
is_pending ApprovalStatus.pending = true
is_pending _ = false

abbrev pub same_status : ApprovalStatus → ApprovalStatus → Bool
same_status ApprovalStatus.pending ApprovalStatus.pending = true
same_status ApprovalStatus.approved ApprovalStatus.approved = true
same_status ApprovalStatus.rejected ApprovalStatus.rejected = true
same_status ApprovalStatus.expired ApprovalStatus.expired = true
same_status _ _ = false

-- `WHERE organization_id = $1 AND id = $2`
abbrev pub in_scope : ℕ → ℕ → ApprovalRequest → Bool
in_scope organization id r = nat_eq r.organization_id organization && nat_eq r.id id

-- The first row that a condition selects.
abbrev pub select : (ApprovalRequest → Bool) → List ApprovalRequest → Option ApprovalRequest
select p [] = none
select p (r ∷ rs) = if p r then some r else select p rs

-- All rows that a condition selects.
abbrev pub select_all : (ApprovalRequest → Bool) → List ApprovalRequest → List ApprovalRequest
select_all p [] = []
select_all p (r ∷ rs) = if p r then r ∷ select_all p rs else select_all p rs

-- `SET status = $3, approver_id = $4, decision_reason = $5, decided_at = $6`
abbrev pub decided :
    ApprovalStatus → Option ℕ → Option String → Option ℕ → ApprovalRequest → ApprovalRequest
decided status approver decision at r = record r {
  status = status;
  approver_id = approver;
  decision_reason = decision;
  decided_at = at;
}

abbrev pub update_rows :
    ℕ → ℕ → (ApprovalRequest → ApprovalRequest) → List ApprovalRequest → List ApprovalRequest
update_rows organization id f rows = map (λ r. if in_scope organization id r then f r else r) rows

-- `RowsAffected() == 0`
abbrev pub updated_none : ℕ → ℕ → List ApprovalRequest → Bool
updated_none organization id rows = elim (select (in_scope organization id) rows) [
  | none ↦ true
  | some r ↦ false
]

-- `ORDER BY`; rows that are equal in the order stay in the order of the table.
abbrev pub insert_by :
    (ApprovalRequest → ApprovalRequest → Bool)
    → ApprovalRequest
    → List ApprovalRequest
    → List ApprovalRequest
insert_by first r [] = r ∷ []
insert_by first r (s ∷ rs) = if first r s then r ∷ s ∷ rs else s ∷ insert_by first r rs

abbrev pub order_by :
    (ApprovalRequest → ApprovalRequest → Bool) → List ApprovalRequest → List ApprovalRequest
order_by first [] = []
order_by first (r ∷ rs) = insert_by first r (order_by first rs)

-- `LIMIT`
abbrev pub take {ℓ} : {A : Type ℓ} → ℕ → List A → List A
take n [] = []
take zero (x ∷ xs) = []
take (suc n) (x ∷ xs) = x ∷ take n xs

-- `OFFSET`
abbrev pub drop {ℓ} : {A : Type ℓ} → ℕ → List A → List A
drop n [] = []
drop zero (x ∷ xs) = x ∷ xs
drop (suc n) (x ∷ xs) = drop n xs

-- `expires_at`, where it is not null
abbrev pub expiry : ApprovalRequest → ℕ
expiry r = elim r.expires_at [ none ↦ 0 | some t ↦ t ]

-- `ORDER BY expires_at ASC`
abbrev pub expires_first : ApprovalRequest → ApprovalRequest → Bool
expires_first r s = leb (expiry r) (expiry s)

-- `organization_id = $1 AND status = $2 AND expires_at IS NOT NULL AND expires_at < NOW()`
abbrev pub is_overdue : ℕ → ℕ → ApprovalRequest → Bool
is_overdue organization now r = elim r.expires_at [
  | none ↦ false
  | some t ↦ nat_eq r.organization_id organization && (is_pending r.status && ltb t now)
]

-- `nil`, or the error with a text before it
abbrev pub wrapped : String → Option Err → Option Err
wrapped s none = none
wrapped s (some e) = some (wrap s e)

-- A query that fails changes nothing.
abbrev pub inserted : Option Err → ApprovalRequest → List ApprovalRequest → List ApprovalRequest
inserted none a rows = rows ++ a ∷ []
inserted (some e) a rows = rows

abbrev pub updated :
    Option Err
    → ℕ
    → ℕ
    → (ApprovalRequest → ApprovalRequest)
    → List ApprovalRequest
    → List ApprovalRequest
updated none organization id f rows = update_rows organization id f rows
updated (some e) organization id f rows = rows

-- The answer of a query that selects one row.
abbrev pub found : Option Err → Option ApprovalRequest → Result ApprovalRequest
found (some e) r = err (wrap "failed to get approval" e)
found none none = err (msg "approval not found")
found none (some r) = ok r

-- The loop over the rows; without a row there is no Scan.
abbrev pub read_rows : Reading → List ApprovalRequest → Result (List ApprovalRequest)
read_rows all_rows rows = ok rows
read_rows (ends_after n) rows = ok (take n rows)
read_rows (fails_at_row e) [] = ok []
read_rows (fails_at_row e) (r ∷ rs) = err (wrap "failed to scan approval" e)

abbrev pub listed :
    String → Option Err → Reading → List ApprovalRequest → Result (List ApprovalRequest)
listed failed (some e) reading rows = err (wrap failed e)
listed failed none reading rows = read_rows reading rows

-- The answer to an update, from the error of the query and whether no row is in its scope.
abbrev pub update_answer : String → Option Err → Option Err → Bool → Option Err
update_answer failed (some e) count nothing = some (wrap failed e)
update_answer failed none (some e) nothing = some (wrap "failed to get rows affected" e)
update_answer failed none none true = some (msg "approval not found")
update_answer failed none none false = none

-- The constraints that an insertion meets: a row with the same unique columns, and whether the
-- organization and the execution have a row.
abbrev pub insert_answer : Option Err → Option ApprovalRequest → Bool → Option Err
insert_answer (some e) same known = some e
insert_answer none (some r) known = some (msg "duplicate key value violates unique constraint")
insert_answer none none true = none
insert_answer none none false = some (msg "insert or update violates foreign key constraint")

module _ (host : Host) where
  abbrev pub insert_error : ℕ → ApprovalRequest → List ApprovalRequest → Option Err
  insert_error n a rows =
      insert_answer (host.query_error n)
        (select (λ r. nat_eq r.id a.id || (r.request_id == a.request_id)) rows)
        (host.is_organization a.organization_id && host.is_execution a.execution_id)

  unfoldable pub create_approval : ApprovalRequest → D (Option Err)
  create_approval a d =
      let failure = insert_error d.calls a d.rows in
      (
        wrapped "failed to create approval" failure,
        record d { calls = suc d.calls; rows = inserted failure a d.rows },
      )

  -- The update of the decision in the rows in the scope; `failed` stands before the error of the query.
  abbrev pub update_decision :
      String → ℕ → ℕ → ApprovalStatus → Option ℕ → Option String → Option ℕ → D (Option Err)
  update_decision failed organization id status approver decision at d =
      let failure = host.query_error d.calls in
      (
        update_answer failed failure (host.count_error d.calls)
            (updated_none organization id d.rows),
        record d {
          calls = suc d.calls;
          rows = updated failure organization id (decided status approver decision at) d.rows;
        },
      )

  unfoldable pub update_approval_status :
      ℕ → ℕ → ApprovalStatus → Option ℕ → Option String → Option ℕ → D (Option Err)
  update_approval_status = update_decision "failed to update approval status"

  unfoldable pub update_approval : ℕ → ApprovalRequest → D (Option Err)
  update_approval organization a =
      update_decision "failed to update approval" organization a.id a.status a.approver_id
        a.decision_reason a.decided_at

  abbrev pub query_row : (ApprovalRequest → Bool) → D (Result ApprovalRequest)
  query_row p d =
      (found (host.query_error d.calls) (select p d.rows), record d { calls = suc d.calls })

  unfoldable pub get_approval_by_id : ℕ → ℕ → D (Result ApprovalRequest)
  get_approval_by_id organization id = query_row (in_scope organization id)

  unfoldable pub get_approval_by_request_id : ℕ → String → D (Result ApprovalRequest)
  get_approval_by_request_id organization id =
      query_row (λ r. nat_eq r.organization_id organization && (r.request_id == id))

  -- The rows of a query that selects many, `failed` before its error.
  abbrev pub query_rows :
      String → (ℕ → List ApprovalRequest → List ApprovalRequest) → D (Result (List ApprovalRequest))
  query_rows failed q d = (
    listed failed (host.query_error d.calls) (host.reading d.calls)
        (q (host.database_now d.calls) d.rows),
    record d { calls = suc d.calls },
  )

  unfoldable pub get_expired_approvals : ℕ → ℕ → D (Result (List ApprovalRequest))
  get_expired_approvals organization limit =
      query_rows "failed to get expired approvals" (λ now rows.
        take limit (order_by expires_first (select_all (is_overdue organization now) rows)))
