-- ===== src/Approval/Creation.antt =====
-- What `CreateApprovalRequest` (internal/services/approval_service.go) does to the table.
use intelligent_workflows.Prelude.{
  ℕ, suc, String, Bool, true, false, ◌≡◌, ◌≢◌, refl, sym, ap, ◌∙◌, subst, List, [], ◌∷◌, ◌++◌,
  Option, none, some, inl, inr, ◌⊎◌, Err, Result, ok, err, Has, Option-cases, arith, nat_eq, ◌==◌,
  ◌&&◌, ◌||◌,
}
use mathlib.Core.Option.{none-ne-some}
use mathlib.Core.Bool.{false≢true}
use intelligent_workflows.Value.{ℤ}
use intelligent_workflows.Models.Approval.{ApprovalRequest, pending}
use intelligent_workflows.Approval.Store.{
  Host, Desk, select, insert_answer, insert_error, inserted, wrapped, create_approval,
}
use intelligent_workflows.Approval.Service.{
  request_saved, insert_request, create_approval_request, new_request,
}
use intelligent_workflows.Approval.Table.{ids}

-- The rows are as before, or a pending row of the organization with the nil ID is added at the end.
abbrev pub OnlyCreates : List ApprovalRequest → List ApprovalRequest → Type 0
OnlyCreates before after =
    (after ≡ before)
    ⊎ ((a : ApprovalRequest) × (after ≡ before ++ a ∷ [])
        × (¬ Has a.id (ids before))
        × (a.status ≡ pending)
        × (a.organization_id ≡ 0))

select-fresh :
    (a : ApprovalRequest) (rows : List ApprovalRequest)
    → select (λ r. nat_eq r.id a.id || (r.request_id == a.request_id)) rows ≡ none
    → ¬ Has a.id (ids rows)
select-fresh a [] h m = elim m [ ]
select-fresh a (r ∷ rs) h (inl e) = ground arith
select-fresh a (r ∷ rs) h (inr m) = select-fresh a rs (ground arith) m

both-left : (a b : Bool) → (a && b) ≡ true → a ≡ true
both-left true b h = refl
both-left false b h = h

insert_answer-none :
    (failure : Option Err) (same : Option ApprovalRequest) (known : Bool)
    → insert_answer failure same known ≡ none
    → (same ≡ none) × (known ≡ true)
insert_answer-none (some e) same known h = ground arith
insert_answer-none none (some r) known h = ground arith
insert_answer-none none none true h = (refl, refl)
insert_answer-none none none false h = ground arith

abbrev pub IsErr : {A : Type 0} → Result A → Type 0
IsErr (ok a) = ⊥
IsErr (err e) = Unit

IsErr-saved :
    (host : Host) (a : ApprovalRequest) (failure : Option Err) (d : Desk)
    → failure ≢ none
    → IsErr (request_saved host a (wrapped "failed to create approval" failure) d).0
unfolding request_saved
IsErr-saved host a none d h = elim (h refl) [ ]
IsErr-saved host a (some e) d h = tt

saved-rows :
    (host : Host) (a : ApprovalRequest) (failure : Option Err) (d : Desk)
    → (request_saved host a (wrapped "failed to create approval" failure) d).1.rows ≡ d.rows
unfolding request_saved
saved-rows host a none d = refl
saved-rows host a (some e) d = refl

module _ (host : Host) where
  OnlyCreates-insert_request :
      (a : ApprovalRequest) (d : Desk)
      → a.status ≡ pending
      → a.organization_id ≡ 0
      → OnlyCreates d.rows (insert_request host a d).1.rows
  unfolding insert_request create_approval
  OnlyCreates-insert_request a d status nil =
      let failure = insert_error host d.calls a d.rows in
      let rows = inserted failure a d.rows in
      subst (OnlyCreates d.rows)
        (sym (saved-rows host a failure (record d { calls = suc d.calls; rows = rows })))
        (elim (Option-cases failure) [
          | inr (e, h) ↦ inl (ap (λ f. inserted f a d.rows) h)
          | inl h ↦ inr (
            a,
            ap (λ f. inserted f a d.rows) h,
            select-fresh a d.rows (insert_answer-none (host.query_error d.calls) _ _ h).0,
            status,
            nil,
          )
        ])

  IsErr-insert_request :
      (a : ApprovalRequest) (d : Desk)
      → host.is_organization a.organization_id ≡ false
      → IsErr (insert_request host a d).0 × ((insert_request host a d).1.rows ≡ d.rows)
  unfolding insert_request create_approval
  IsErr-insert_request a d unknown =
      let failure = insert_error host d.calls a d.rows in
      let rows = inserted failure a d.rows in
      let d' = record d { calls = suc d.calls; rows = rows } in
      elim (Option-cases failure) [
        | inl h ↦
            let known = (insert_answer-none (host.query_error d.calls) _ _ h).1 in
            elim (false≢true (sym unknown ∙ both-left _ _ known)) [ ]
        | inr (e, h) ↦ (
          IsErr-saved host a failure d' (λ q. none-ne-some e (sym q ∙ h)),
          saved-rows host a failure d' ∙ ap (λ f. inserted f a d.rows) h,
        )
      ]

  module _ (execution : ℕ) (entity entity_id : String) (requester : Option ℕ)
      (role reason : String) where
    -- What the service inserts, `n` calls after the start.
    abbrev request_at : ℕ → Option ℕ → ApprovalRequest
    request_at n expires_at =
        new_request (host.new_id n) (host.short_id (suc n)) execution entity entity_id requester
          role reason (host.now (suc (suc n))) expires_at

    -- `CreateApprovalRequest` leaves the table as it is, or adds one row: a pending row, with an ID
    -- that no row had, of the organization with the nil ID.
    pub create_approval_request-OnlyCreates :
        (expires_in : Option ℤ) (d : Desk)
        → OnlyCreates d.rows
            (create_approval_request host execution entity entity_id requester role reason
              expires_in d).1.rows
    unfolding create_approval_request
    create_approval_request-OnlyCreates none d =
        OnlyCreates-insert_request (request_at d.calls none)
          (record d { calls = suc (suc (suc d.calls)) }) refl refl
    create_approval_request-OnlyCreates (some t) d =
        OnlyCreates-insert_request
          (request_at d.calls (some (host.add (host.now (suc (suc (suc d.calls)))) t)))
          (record d { calls = suc (suc (suc (suc d.calls))) }) refl refl

    -- Where no organization has the nil ID, `CreateApprovalRequest` always returns an error and leaves
    -- the table as it is, whatever it is asked for: the row that it inserts has no organization.
    pub create_approval_request-IsErr :
        (expires_in : Option ℤ) (d : Desk)
        → host.is_organization 0 ≡ false
        → let (r, d') =
            create_approval_request host execution entity entity_id requester role reason expires_in
              d in
          IsErr r × (d'.rows ≡ d.rows)
    unfolding create_approval_request
    create_approval_request-IsErr none d h =
        IsErr-insert_request (request_at d.calls none)
          (record d { calls = suc (suc (suc d.calls)) }) h
    create_approval_request-IsErr (some t) d h =
        IsErr-insert_request
          (request_at d.calls (some (host.add (host.now (suc (suc (suc d.calls)))) t)))
          (record d { calls = suc (suc (suc (suc d.calls))) }) h
