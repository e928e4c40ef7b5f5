-- ===== src/Approval/Selection.antt =====
-- Facts about the queries that select several rows of the table of approval requests.
use intelligent_workflows.Prelude.{
  ℕ, zero, suc, ◌-◌, Bool, true, ◌≡◌, refl, ap, subst, ◌∙◌, List, [], ◌∷◌, inl, inr, ◌⊎◌, Has,
  Bool-cases, arith, if◌then◌else◌, length, leb,
}
use intelligent_workflows.Models.Approval.{ApprovalRequest}
use intelligent_workflows.Approval.Store.{select_all, insert_by, order_by, take, drop}

pub Has-take :
    (n : ℕ) (xs : List ApprovalRequest) (a : ApprovalRequest) → Has a (take n xs) → Has a xs
Has-take n [] a h = elim h [ ]
Has-take zero (x ∷ xs) a h = elim h [ ]
Has-take (suc n) (x ∷ xs) a (inl e) = inl e
Has-take (suc n) (x ∷ xs) a (inr h) = inr (Has-take n xs a h)

module _ (first : ApprovalRequest → ApprovalRequest → Bool) where
  pub Has-insert_by :
      (r : ApprovalRequest) (xs : List ApprovalRequest) (a : ApprovalRequest)
      → Has a (insert_by first r xs)
      → (a ≡ r) ⊎ Has a xs
  Has-insert_by r [] a h = h
  Has-insert_by r (x ∷ xs) a h = elim (Bool-cases (first r x)) [
    | inl e ↦ subst (λ b. Has a (if b then r ∷ x ∷ xs else x ∷ insert_by first r xs)) e h
    | inr e ↦ elim (subst (λ b. Has a (if b then r ∷ x ∷ xs else x ∷ insert_by first r xs)) e h) [
      | inl p ↦ inr (inl p)
      | inr q ↦ elim (Has-insert_by r xs a q) [ inl p ↦ inl p | inr s ↦ inr (inr s) ]
    ]
  ]

  pub Has-order_by :
      (xs : List ApprovalRequest) (a : ApprovalRequest) → Has a (order_by first xs) → Has a xs
  Has-order_by [] a h = h
  Has-order_by (x ∷ xs) a h = elim (Has-insert_by x (order_by first xs) a h) [
    | inl p ↦ inl p
    | inr q ↦ inr (Has-order_by xs a q)
  ]

pub Has-select_all :
    (p : ApprovalRequest → Bool) (xs : List ApprovalRequest) (a : ApprovalRequest)
    → Has a (select_all p xs)
    → Has a xs × (p a ≡ true)
Has-select_all p [] a h = elim h [ ]
Has-select_all p (x ∷ xs) a h = elim (Bool-cases (p x)) [
  | inl e ↦ elim (subst (λ b. Has a (if b then x ∷ select_all p xs else select_all p xs)) e h) [
    | inl q ↦ (inl q, ap p q ∙ e)
    | inr q ↦ let (m, t) = Has-select_all p xs a q in (inr m, t)
  ]
  | inr e ↦
      let (m, t) =
        Has-select_all p xs a
          (subst (λ b. Has a (if b then x ∷ select_all p xs else select_all p xs)) e h) in
      (inr m, t)
]

pub length-insert_by :
    (first : ApprovalRequest → ApprovalRequest → Bool) (r : ApprovalRequest)
    (xs : List ApprovalRequest)
    → length (insert_by first r xs) ≡ suc (length xs)
length-insert_by first r [] = refl
length-insert_by first r (x ∷ xs) = ground (arith, length-insert_by first r xs)

pub length-order_by :
    (first : ApprovalRequest → ApprovalRequest → Bool) (xs : List ApprovalRequest)
    → length (order_by first xs) ≡ length xs
length-order_by first [] = refl
length-order_by first (x ∷ xs) =
    length-insert_by first x (order_by first xs) ∙ ap suc (length-order_by first xs)

pub length-drop : (n : ℕ) (xs : List ApprovalRequest) → length (drop n xs) ≡ length xs - n
length-drop n [] = omega arith
length-drop zero (x ∷ xs) = omega arith
length-drop (suc n) (x ∷ xs) = omega (arith, length-drop n xs)

pub length-take :
    (n : ℕ) (xs : List ApprovalRequest)
    → length (take n xs) ≡ (if leb (length xs) n then length xs else n)
length-take n [] = ground arith
length-take zero (x ∷ xs) = ground arith
length-take (suc n) (x ∷ xs) = ground (arith, length-take n xs)
