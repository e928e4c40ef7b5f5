-- ===== src/Approval/Expiry.antt =====
-- What `ExpireOldApprovals` (internal/services/approval_service.go) does to the table.
use intelligent_workflows.Prelude.{
  ℕ, String, suc, ◌<◌, true, ◌≡◌, refl, sym, subst, List, [], ◌∷◌, Option, none, some, inl, inr,
  Err, Result, ok, err, Has, Distinct, Pointwise, arith,
}
use intelligent_workflows.Models.Approval.{pending, expired, ApprovalRequest}
use intelligent_workflows.Approval.Store.{
  Host, Desk, Reading, all_rows, ends_after, fails_at_row, take, is_pending, expires_first,
  is_overdue, updated, update_approval_status, get_expired_approvals, listed, update_answer,
  updated_none,
}
use intelligent_workflows.Approval.Service.{
  expire_saved, expire_all, expire_loaded, expire_old_approvals,
}
use intelligent_workflows.Approval.Decision.{is_pending-pending}
use intelligent_workflows.Approval.Selection.{Has-take, Has-order_by, Has-select_all}
use intelligent_workflows.Approval.Table.{
  Changed, ids, in_scope-id, Has-same, update_rows-Changed, Pointwise-refl, updated-cases,
}

-- The row with the expiration: nothing else of it changes.
abbrev pub expired_at : ℕ → ApprovalRequest → ApprovalRequest
expired_at at r = record r {
  status = expired;
  approver_id = none;
  decision_reason = none;
  decided_at = some at;
}

-- A pending row of the organization, past its expiry at the time.
abbrev pub IsOverdue : ℕ → ℕ → ApprovalRequest → Type 0
IsOverdue o now r =
    (t : ℕ) × (r.organization_id ≡ o) × (r.status ≡ pending) × (r.expires_at ≡ some t) × (t < now)

-- Each row is as before, or it was overdue at the time of the database in the query, which is the first
-- call, and has expired at the time that the clock gives at the next call.
abbrev pub OnlyExpires : Host → ℕ → Desk → Desk → Type 0
OnlyExpires host o before after =
    Pointwise
      (Changed (IsOverdue o (host.database_now before.calls))
        (expired_at (host.now (suc before.calls))))
      before.rows after.rows

overdue :
    (expires_at : Option ℕ) (o now : ℕ) (a : ApprovalRequest)
    → a.expires_at ≡ expires_at
    → is_overdue o now a ≡ true
    → (t : ℕ) × (a.organization_id ≡ o)
      × (is_pending a.status ≡ true)
      × (expires_at ≡ some t)
      × (t < now)
overdue none o now a e h = ground arith
overdue (some t) o now a e h = (t, ground arith, ground arith, refl, ground arith)

is_overdue-IsOverdue :
    (o now : ℕ) (a : ApprovalRequest) → is_overdue o now a ≡ true → IsOverdue o now a
is_overdue-IsOverdue o now a h =
    let (t, k, p, e, l) = overdue a.expires_at o now a refl h in
    (t, k, is_pending-pending a.status p, e, l)

ok_inj :
    (xs ys : List ApprovalRequest)
    → ◌≡◌ {A = Result (List ApprovalRequest)} (ok xs) (ok ys)
    → xs ≡ ys
ok_inj xs ys h = ground arith

module _ (host : Host) where
  -- The loop, over rows of the table as it was before.
  expire_all-rows :
      (P : ApprovalRequest → Type 0) (before : List ApprovalRequest) (at : ℕ)
      (approvals : List ApprovalRequest) (d : Desk)
      → Distinct (ids before)
      → ((a : ApprovalRequest) → Has a approvals → Has a before × P a)
      → Pointwise (Changed P (expired_at at)) before d.rows
      → Pointwise (Changed P (expired_at at)) before (expire_all host at approvals d).1.rows
  unfolding expire_all update_approval_status
  expire_all-rows P before at [] d distinct g h = h
  expire_all-rows P before at (a ∷ rest) d distinct g h =
      let failed : String = "failed to update approval status" in
      let failure = host.query_error d.calls in
      let o = a.organization_id in
      let rows = updated failure o a.id (expired_at at) d.rows in
      let (member, p) = g a (inl refl) in
      expire_all-rows P before at rest
        (expire_saved host a
          (update_answer failed failure (host.count_error d.calls) (updated_none o a.id d.rows))
          (record d { calls = suc d.calls; rows = rows })).1
        distinct (λ b m. g b (inr m))
        (elim (updated-cases failed failure none true o a.id (expired_at at) d.rows) [
          | inl (_, e) ↦ subst (Pointwise (Changed P (expired_at at)) before) (sym e) h
          | inr e ↦ subst (Pointwise (Changed P (expired_at at)) before) (sym e) (
              update_rows-Changed o a.id expired none none (some at) P before d.rows
                (λ r m s.
                  subst P (sym (Has-same a r before distinct member m (in_scope-id o a.id r s))) p)
                h)
        ])

  loaded-rows :
      (P : ApprovalRequest → Type 0) (r : Result (List ApprovalRequest)) (d : Desk)
      → Distinct (ids d.rows)
      → ((l : List ApprovalRequest)
          → r ≡ ok l
          → (a : ApprovalRequest) → Has a l
          → Has a d.rows × P a)
      → Pointwise (Changed P (expired_at (host.now d.calls))) d.rows (expire_loaded host r d).1.rows
  unfolding expire_loaded
  loaded-rows P (err e) d distinct g = Pointwise-refl P (expired_at (host.now d.calls)) d.rows
  loaded-rows P (ok l) d distinct g =
      expire_all-rows P d.rows (host.now d.calls) l (record d { calls = suc d.calls }) distinct
        (g l refl) (Pointwise-refl P (expired_at (host.now d.calls)) d.rows)

  listed-Has :
      (failed : String) (failure : Option Err) (reading : Reading) (rows l : List ApprovalRequest)
      (a : ApprovalRequest)
      → listed failed failure reading rows ≡ ok l
      → Has a l
      → Has a rows
  listed-Has failed (some e) reading rows l a h m = cc
  listed-Has failed none all_rows rows l a h m = subst (Has a) (sym (ok_inj rows l h)) m
  listed-Has failed none (ends_after n) rows l a h m =
      Has-take n rows a (subst (Has a) (sym (ok_inj (take n rows) l h)) m)
  listed-Has failed none (fails_at_row e) [] l a h m = subst (Has a) (sym (ok_inj [] l h)) m
  listed-Has failed none (fails_at_row e) (r ∷ rs) l a h m = cc

  -- Where the IDs in the table are distinct, `ExpireOldApprovals` changes rows of the organization
  -- with the nil ID only, whatever other organizations there are. A row that it changes was pending,
  -- and its expiry was before the time that the database gives in the query; it becomes expired at the
  -- time that the clock gives next, with no approver and no reason, and keeps all other fields.
  pub expire_old_approvals-OnlyExpires :
      (d : Desk) → Distinct (ids d.rows) → OnlyExpires host 0 d (expire_old_approvals host d).1
  unfolding expire_old_approvals get_expired_approvals
  expire_old_approvals-OnlyExpires d distinct =
      let now = host.database_now d.calls in
      loaded-rows (IsOverdue 0 now) (get_expired_approvals host 0 1000 d).0
        (record d { calls = suc d.calls }) distinct
        (λ l e a m.
          let m' =
            listed-Has "failed to get expired approvals" (host.query_error d.calls)
              (host.reading d.calls) _ l a e m in
          let (member, p) =
            Has-select_all (is_overdue 0 now) d.rows a
              (Has-order_by expires_first _ a (Has-take 1000 _ a m')) in
          (member, is_overdue-IsOverdue 0 now a p))
