-- ===== src/Approval/Table.antt =====
-- Facts about the rows of the table of approval requests: keys, selections, updates.
use intelligent_workflows.Prelude.{
  ℕ, String, Bool, true, false, ◌≡◌, refl, sym, ap, subst, List, [], ◌∷◌, Option, none, some, ◌⊎◌,
  inl, inr, if◌then◌else◌, nat_eq, arith, ok, Has, Distinct, Pointwise, Bool-cases, Err,
}
use intelligent_workflows.Models.Approval.{ApprovalStatus, ApprovalRequest}
use intelligent_workflows.Approval.Store.{
  update_answer, updated, found, in_scope, select, update_rows, decided,
}

abbrev pub ids : List ApprovalRequest → List ℕ
ids [] = []
ids (r ∷ rs) = r.id ∷ ids rs

-- A row that is as it was, or that had a property and went through `f`.
abbrev pub Changed :
    (ApprovalRequest → Type 0)
    → (ApprovalRequest → ApprovalRequest)
    → ApprovalRequest
    → ApprovalRequest
    → Type 0
Changed P f r s = (s ≡ r) ⊎ (P r × (s ≡ f r))

pub nat_eq_iff : (m n : ℕ) → nat_eq m n ≡ true → m ≡ n
nat_eq_iff m n h = ground arith

pub in_scope-id : (o i : ℕ) (r : ApprovalRequest) → in_scope o i r ≡ true → r.id ≡ i
in_scope-id o i r h = ground arith

pub in_scope-organization :
    (o i : ℕ) (r : ApprovalRequest) → in_scope o i r ≡ true → r.organization_id ≡ o
in_scope-organization o i r h = ground arith

pub Has-ids : (a : ApprovalRequest) (rows : List ApprovalRequest) → Has a rows → Has a.id (ids rows)
Has-ids a [] h = elim h [ ]
Has-ids a (r ∷ rs) (inl e) = inl (ap (λ x. x.id) e)
Has-ids a (r ∷ rs) (inr h) = inr (Has-ids a rs h)

-- Rows with the same ID are the same.
pub Has-same :
    (a r : ApprovalRequest) (rows : List ApprovalRequest)
    → Distinct (ids rows)
    → Has a rows
    → Has r rows
    → r.id ≡ a.id
    → r ≡ a
Has-same a r [] d h k e = elim h [ ]
Has-same a r (x ∷ xs) d (inl p) (inl q) e = cc
Has-same a r (x ∷ xs) d (inl p) (inr q) e =
    elim (d.0 (subst (λ i. Has i (ids xs)) (cc) (Has-ids r xs q))) [ ]
Has-same a r (x ∷ xs) d (inr p) (inl q) e =
    elim (d.0 (subst (λ i. Has i (ids xs)) (cc) (Has-ids a xs p))) [ ]
Has-same a r (x ∷ xs) d (inr p) (inr q) e = Has-same a r xs d.1 p q e

pub select-Has :
    (p : ApprovalRequest → Bool) (rows : List ApprovalRequest) (a : ApprovalRequest)
    → select p rows ≡ some a
    → Has a rows × (p a ≡ true)
select-Has p [] a h = ground arith
select-Has p (r ∷ rs) a h = elim (Bool-cases (p r)) [
  | inl e ↦ let q : a ≡ r = ground arith in (inl q, subst (λ x. p x ≡ true) (sym q) e)
  | inr e ↦ let (m, q) = select-Has p rs a (ground arith) in (inr m, q)
]

if_same : (b : Bool) (r : ApprovalRequest) → (if b then r else r) ≡ r
if_same true r = refl
if_same false r = refl

module _ (o i : ℕ) (status : ApprovalStatus) (approver : Option ℕ) (decision : Option String)
    (at : Option ℕ) where
  abbrev pub decision_of : ApprovalRequest → ApprovalRequest
  decision_of = decided status approver decision at

  pub ids-update_rows :
      (rows : List ApprovalRequest) → ids (update_rows o i decision_of rows) ≡ ids rows
  ids-update_rows [] = refl
  ids-update_rows (r ∷ rs) = elim (Bool-cases (in_scope o i r)) [
    | inl e ↦ rw (e) (ap (λ l. r.id ∷ l) (ids-update_rows rs))
    | inr e ↦ rw (e) (ap (λ l. r.id ∷ l) (ids-update_rows rs))
  ]

  Changed-update :
      (P : ApprovalRequest → Type 0) (r s : ApprovalRequest)
      → (in_scope o i r ≡ true → P r)
      → Changed P decision_of r s
      → Changed P decision_of r (if in_scope o i s then decision_of s else s)
  Changed-update P r s g (inl e) = elim (Bool-cases (in_scope o i r)) [
    | inl h ↦ inr (
      g h,
      subst (λ x. (if in_scope o i x then decision_of x else x) ≡ decision_of r) (sym e)
          (ap (λ b. if b then decision_of r else r) h),
    )
    | inr h ↦ inl (
        subst (λ x. (if in_scope o i x then decision_of x else x) ≡ r) (sym e)
          (ap (λ b. if b then decision_of r else r) h))
  ]
  Changed-update P r s g (inr (p, e)) = inr (
    p,
    subst (λ x. (if in_scope o i x then decision_of x else x) ≡ decision_of r) (sym e)
        (if_same (in_scope o i r) (decision_of r)),
  )

  -- An update keeps rows changed in the given way only, where the rows in its scope may be changed.
  pub update_rows-Changed :
      (P : ApprovalRequest → Type 0) (before rows : List ApprovalRequest)
      → ((r : ApprovalRequest) → Has r before → in_scope o i r ≡ true → P r)
      → Pointwise (Changed P decision_of) before rows
      → Pointwise (Changed P decision_of) before (update_rows o i decision_of rows)
  update_rows-Changed P [] [] g h = tt
  update_rows-Changed P [] (s ∷ ss) g h = elim h [ ]
  update_rows-Changed P (r ∷ rs) [] g h = elim h [ ]
  update_rows-Changed P (r ∷ rs) (s ∷ ss) g (c, h) =
      (Changed-update P r s (g r (inl refl)) c, update_rows-Changed P rs ss (λ q m. g q (inr m)) h)

pub Pointwise-refl :
    (P : ApprovalRequest → Type 0) (f : ApprovalRequest → ApprovalRequest)
    (rows : List ApprovalRequest)
    → Pointwise (Changed P f) rows rows
Pointwise-refl P f [] = tt
Pointwise-refl P f (r ∷ rs) = (inl refl, Pointwise-refl P f rs)

-- What an update makes of the row that it selects.
pub select-update_rows :
    (o i : ℕ) (status : ApprovalStatus) (approver : Option ℕ) (decision : Option String)
    (at : Option ℕ) (rows : List ApprovalRequest) (b : ApprovalRequest)
    → select (in_scope o i) rows ≡ some b
    → select (in_scope o i) (update_rows o i (decided status approver decision at) rows)
      ≡ some (decided status approver decision at b)
select-update_rows o i status approver decision at [] b h = ground arith
select-update_rows o i status approver decision at (r ∷ rs) b h =
    elim (Bool-cases (in_scope o i r)) [
      | inl e ↦
          let q : r ≡ b = ground arith in
          rw (e, e) (ap (λ x. some (decided status approver decision at x)) q)
      | inr e ↦ rw (e, e) (select-update_rows o i status approver decision at rs b (ground arith))
    ]

-- An update that fails at once changes no row.
pub updated-cases :
    (failed : String) (failure count : Option Err) (nothing : Bool) (o i : ℕ)
    (f : ApprovalRequest → ApprovalRequest) (rows : List ApprovalRequest)
    → (((e : Err) × (update_answer failed failure count nothing ≡ some e))
        × (updated failure o i f rows ≡ rows))
      ⊎ (updated failure o i f rows ≡ update_rows o i f rows)
updated-cases failed none count nothing o i f rows = inr refl
updated-cases failed (some e) count nothing o i f rows = inl ((_, refl), refl)

pub found-ok :
    (failure : Option Err) (r : Option ApprovalRequest) (a : ApprovalRequest)
    → found failure r ≡ ok a
    → r ≡ some a
found-ok (some e) r a h = ground arith
found-ok none none a h = ground arith
found-ok none (some r) a h = ground arith
