-- ===== src/Approval/History.antt =====
-- Sequences of operations of the approval service (internal/services/approval_service.go), against
-- the life of a request: pending, then decided or expired once and for all.
use intelligent_workflows.Prelude.{
  ℕ, suc, String, true, false, ◌≡◌, refl, sym, ap, ◌∙◌, subst, List, [], ◌∷◌, ◌++◌, Option, none,
  some, inl, inr, ◌⊎◌, Has, Distinct, Pointwise,
}
use mathlib.Core.Bool.{false≢true}
use intelligent_workflows.Value.{ℤ}
use intelligent_workflows.Models.Approval.{ApprovalStatus, ApprovalRequest, expired}
use intelligent_workflows.Approval.Store.{Host, Desk, is_pending, decided}
use intelligent_workflows.Approval.Service.{
  Decision, approve, reject, decision_status, decide_request, create_approval_request,
  expire_old_approvals,
}
use intelligent_workflows.Approval.Table.{Changed, ids}
use intelligent_workflows.Approval.Decision.{IsOpen, decide_request-OnlyUpdates}
use intelligent_workflows.Approval.Expiry.{IsOverdue, expire_old_approvals-OnlyExpires}
use intelligent_workflows.Approval.Creation.{create_approval_request-OnlyCreates}

-- The operations that write to the table, with their arguments.
pub data Operation : Type 0 where
  decide : Decision → ℕ → ℕ → ℕ → Option String → Operation
  create : ℕ → String → String → Option ℕ → String → String → Option ℤ → Operation
  expire : Operation

unfoldable pub perform : Host → Operation → Desk → Desk
perform host (decide decision o i approver reason) d =
    (decide_request host decision o i approver reason d).1
perform host (create execution entity entity_id requester role reason expires_in) d =
    (create_approval_request host execution entity entity_id requester role reason expires_in d).1
perform host expire d = (expire_old_approvals host d).1

unfoldable pub run : Host → List Operation → Desk → Desk
run host [] d = d
run host (operation ∷ rest) d = run host rest (perform host operation d)

-- A request stays as it is, or a pending one gets another status, with who decided it, why and when.
abbrev pub Advance : ApprovalRequest → ApprovalRequest → Type 0
Advance r s =
    (s ≡ r)
    ⊎ ((is_pending r.status ≡ true)
        × (is_pending s.status ≡ false)
        × (s ≡ decided s.status s.approver_id s.decision_reason s.decided_at r))

-- The requests of a table advance, each in its place; none is removed, and others may follow.
abbrev pub Evolves : List ApprovalRequest → List ApprovalRequest → Type 0
Evolves [] new = Unit
Evolves (r ∷ rs) [] = ⊥
Evolves (r ∷ rs) (s ∷ ss) = Advance r s × Evolves rs ss

Advance-trans : (r s t : ApprovalRequest) → Advance r s → Advance s t → Advance r t
Advance-trans r s t (inl e) k = subst (λ x. Advance x t) e k
Advance-trans r s t (inr h) (inl e) = subst (Advance r) (sym e) (inr h)
Advance-trans r s t (inr (p, q, e)) (inr (p', q', e')) = elim (false≢true (sym q ∙ p')) [ ]

Evolves-trans : (rs ss ts : List ApprovalRequest) → Evolves rs ss → Evolves ss ts → Evolves rs ts
Evolves-trans [] ss ts h k = tt
Evolves-trans (r ∷ rs) [] ts h k = elim h [ ]
Evolves-trans (r ∷ rs) (s ∷ ss) [] h k = elim k [ ]
Evolves-trans (r ∷ rs) (s ∷ ss) (t ∷ ts) (a, h) (b, k) =
    (Advance-trans r s t a b, Evolves-trans rs ss ts h k)

Evolves-refl : (rs new : List ApprovalRequest) → Evolves rs (rs ++ new)
Evolves-refl [] new = tt
Evolves-refl (r ∷ rs) new = (inl refl, Evolves-refl rs new)

Evolves-same : (rs : List ApprovalRequest) → Evolves rs rs
Evolves-same [] = tt
Evolves-same (r ∷ rs) = (inl refl, Evolves-same rs)

ids-cons :
    (s r : ApprovalRequest) (ss rs : List ApprovalRequest)
    → s.id ≡ r.id
    → ids ss ≡ ids rs
    → ids (s ∷ ss) ≡ ids (r ∷ rs)
ids-cons s r ss rs e k = cc

-- The IDs are kept by a decision.
ids-Pointwise :
    (P : ApprovalRequest → Type 0) (status : ApprovalStatus) (approver : Option ℕ)
    (reason : Option String) (at : Option ℕ) (rs ss : List ApprovalRequest)
    → Pointwise (Changed P (decided status approver reason at)) rs ss
    → ids ss ≡ ids rs
ids-Pointwise P status approver reason at [] [] h = refl
ids-Pointwise P status approver reason at [] (s ∷ ss) h = elim h [ ]
ids-Pointwise P status approver reason at (r ∷ rs) [] h = elim h [ ]
ids-Pointwise P status approver reason at (r ∷ rs) (s ∷ ss) (inl e, h) =
    ids-cons s r ss rs (ap (λ x. x.id) e) (ids-Pointwise P status approver reason at rs ss h)
ids-Pointwise P status approver reason at (r ∷ rs) (s ∷ ss) (inr (p, e), h) =
    ids-cons s r ss rs (ap (λ x. x.id) e) (ids-Pointwise P status approver reason at rs ss h)

Evolves-Pointwise :
    (P : ApprovalRequest → Type 0) (status : ApprovalStatus) (approver : Option ℕ)
    (reason : Option String) (at : Option ℕ) (rs ss : List ApprovalRequest)
    → is_pending status ≡ false
    → ((r : ApprovalRequest) → P r → is_pending r.status ≡ true)
    → Pointwise (Changed P (decided status approver reason at)) rs ss
    → Evolves rs ss
Evolves-Pointwise P status approver reason at [] ss e g h = tt
Evolves-Pointwise P status approver reason at (r ∷ rs) [] e g h = elim h [ ]
Evolves-Pointwise P status approver reason at (r ∷ rs) (s ∷ ss) e g (inl q, h) =
    (inl q, Evolves-Pointwise P status approver reason at rs ss e g h)
Evolves-Pointwise P status approver reason at (r ∷ rs) (s ∷ ss) e g (inr (p, q), h) = (
  inr (
      subst
        (λ x.
          (is_pending r.status ≡ true)
          × (is_pending x.status ≡ false)
          × (x ≡ decided x.status x.approver_id x.decision_reason x.decided_at r))
        (sym q) (g r p, e, refl)),
  Evolves-Pointwise P status approver reason at rs ss e g h,
)

Has-append :
    (i : ℕ) (rows : List ApprovalRequest) (a : ApprovalRequest)
    → Has i (ids (rows ++ a ∷ []))
    → Has i (ids rows) ⊎ (i ≡ a.id)
Has-append i [] a (inl e) = inr e
Has-append i [] a (inr m) = elim m [ ]
Has-append i (r ∷ rs) a (inl e) = inl (inl e)
Has-append i (r ∷ rs) a (inr m) = elim (Has-append i rs a m) [ inl k ↦ inl (inr k) | inr e ↦ inr e ]

Distinct-append :
    (rows : List ApprovalRequest) (a : ApprovalRequest)
    → Distinct (ids rows)
    → ¬ Has a.id (ids rows)
    → Distinct (ids (rows ++ a ∷ []))
Distinct-append [] a d h = (λ m. m, tt)
Distinct-append (r ∷ rs) a d h = (
  λ m. elim (Has-append r.id rs a m) [ inl k ↦ d.0 k | inr e ↦ h (inl (sym e)) ],
  Distinct-append rs a d.1 (λ m. h (inr m)),
)

-- A step of the abstract life of the requests, which keeps the IDs distinct.
abbrev IsStep : List ApprovalRequest → List ApprovalRequest → Type 0
IsStep before after = Distinct (ids after) × Evolves before after

IsStep-Pointwise :
    (P : ApprovalRequest → Type 0) (status : ApprovalStatus) (approver : Option ℕ)
    (reason : Option String) (at : Option ℕ) (rs ss : List ApprovalRequest)
    → Distinct (ids rs)
    → is_pending status ≡ false
    → ((r : ApprovalRequest) → P r → is_pending r.status ≡ true)
    → Pointwise (Changed P (decided status approver reason at)) rs ss
    → IsStep rs ss
IsStep-Pointwise P status approver reason at rs ss d e g h = (
  subst Distinct (sym (ids-Pointwise P status approver reason at rs ss h)) d,
  Evolves-Pointwise P status approver reason at rs ss e g h,
)

decision-decides : (decision : Decision) → is_pending (decision_status decision) ≡ false
decision-decides approve = refl
decision-decides reject = refl

perform-IsStep :
    (host : Host) (operation : Operation) (d : Desk)
    → Distinct (ids d.rows)
    → IsStep d.rows (perform host operation d).rows
unfolding perform
perform-IsStep host (decide decision o i approver reason) d distinct =
    IsStep-Pointwise (IsOpen o i (host.now (suc d.calls))) (decision_status decision)
      (some approver) reason (some (host.now (suc (suc d.calls)))) d.rows _ distinct
      (decision-decides decision) (λ r (_, _, p, _). ap is_pending p)
      (decide_request-OnlyUpdates host decision o i approver reason d distinct)
perform-IsStep host (create execution entity entity_id requester role reason expires_in) d
      distinct =
    elim (create_approval_request-OnlyCreates host execution entity entity_id requester role reason
      expires_in d) [
        | inl e ↦ subst (IsStep d.rows) (sym e) (distinct, Evolves-same d.rows)
        | inr (a, e, fresh, _, _) ↦
            subst (IsStep d.rows) (sym e)
              (Distinct-append d.rows a distinct fresh, Evolves-refl d.rows (a ∷ []))
      ]
perform-IsStep host expire d distinct =
    IsStep-Pointwise (IsOverdue 0 (host.database_now d.calls)) expired none none
      (some (host.now (suc d.calls))) d.rows _ distinct refl (λ r (_, _, p, _, _). ap is_pending p)
      (expire_old_approvals-OnlyExpires host d distinct)

-- Whatever sequence of approvals, rejections, creations and expirations the service performs, where
-- the IDs in the table are distinct before: they are distinct after; every request is still in its
-- place; and it is as it was, or it was pending and now has another status, and differs only in the
-- status, the approver, the reason of the decision and its time. So a request that has been approved,
-- rejected or expired never changes again.
pub run-Evolves :
    (host : Host) (operations : List Operation) (d : Desk)
    → Distinct (ids d.rows)
    → Distinct (ids (run host operations d).rows) × Evolves d.rows (run host operations d).rows
unfolding run
run-Evolves host [] d distinct = (distinct, Evolves-same d.rows)
run-Evolves host (operation ∷ rest) d distinct =
    let (distinct', step) = perform-IsStep host operation d distinct in
    let (distinct'', steps) = run-Evolves host rest (perform host operation d) distinct' in
    (distinct'', Evolves-trans d.rows _ _ step steps)
