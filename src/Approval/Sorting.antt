-- ===== src/Approval/Sorting.antt =====
-- The rows that a query of approval requests selects, sorted by `ORDER BY requested_at DESC`.
use mathlib.Core.Bool.{false≢true}
use intelligent_workflows.Prelude.{
  ℕ, zero, suc, ◌≤◌, Bool, true, false, ◌≡◌, refl, sym, ap, ◌∙◌, subst, List, [], ◌∷◌, ◌++◌, inl,
  inr, if◌then◌else◌, leb, Has, Distinct, Bool-cases, arith,
}
use intelligent_workflows.Models.Approval.{ApprovalRequest}
use intelligent_workflows.Approval.Store.{select_all, insert_by, order_by, take, drop}
use intelligent_workflows.Approval.Selection.{Has-insert_by, Has-order_by, Has-select_all}
use intelligent_workflows.Approval.Table.{ids, Has-ids}
use intelligent_workflows.Approval.Listing.{latest_first}

-- No row was requested later than one before it.
abbrev pub IsDescending : List ApprovalRequest → Type 0
IsDescending [] = Unit
IsDescending (r ∷ rs) =
    ((s : ApprovalRequest) → Has s rs → s.requested_at ≤ r.requested_at) × IsDescending rs

pub take-drop : (n : ℕ) (xs : List ApprovalRequest) → take n xs ++ drop n xs ≡ xs
take-drop n [] = refl
take-drop zero (x ∷ xs) = refl
take-drop (suc n) (x ∷ xs) = ap (λ l. x ∷ l) (take-drop n xs)

Has-insert :
    (r : ApprovalRequest) (xs : List ApprovalRequest) (a : ApprovalRequest)
    → Has a (r ∷ xs)
    → Has a (insert_by latest_first r xs)
Has-insert r [] a h = h
Has-insert r (x ∷ xs) a h = elim (Bool-cases (latest_first r x)) [
  | inl e ↦ subst (λ b. Has a (if b then r ∷ x ∷ xs else x ∷ insert_by latest_first r xs)) (sym e) h
  | inr e ↦
      subst (λ b. Has a (if b then r ∷ x ∷ xs else x ∷ insert_by latest_first r xs)) (sym e)
        (elim h [
          | inl p ↦ inr (Has-insert r xs a (inl p))
          | inr (inl q) ↦ inl q
          | inr (inr m) ↦ inr (Has-insert r xs a (inr m))
        ])
]

pub order_by-Has :
    (xs : List ApprovalRequest) (a : ApprovalRequest) → Has a xs → Has a (order_by latest_first xs)
order_by-Has [] a h = h
order_by-Has (x ∷ xs) a (inl p) = Has-insert x (order_by latest_first xs) a (inl p)
order_by-Has (x ∷ xs) a (inr m) =
    Has-insert x (order_by latest_first xs) a (inr (order_by-Has xs a m))

pub select_all-Has :
    (p : ApprovalRequest → Bool) (xs : List ApprovalRequest) (a : ApprovalRequest)
    → Has a xs
    → p a ≡ true
    → Has a (select_all p xs)
select_all-Has p [] a h e = elim h [ ]
select_all-Has p (x ∷ xs) a h e = elim (Bool-cases (p x)) [
  | inl k ↦
      subst (λ b. Has a (if b then x ∷ select_all p xs else select_all p xs)) (sym k)
        (elim h [ inl q ↦ inl q | inr m ↦ inr (select_all-Has p xs a m e) ])
  | inr k ↦
      subst (λ b. Has a (if b then x ∷ select_all p xs else select_all p xs)) (sym k)
        (elim h [
          | inl q ↦ elim (false≢true (sym k ∙ (ap p (sym q) ∙ e))) [ ]
          | inr m ↦ select_all-Has p xs a m e
        ])
]

leb_le : (m n : ℕ) → leb m n ≡ true → m ≤ n
leb_le m n h = ground arith

leb_ge : (m n : ℕ) → leb m n ≡ false → n ≤ m
leb_ge m n h = ground arith

requested_le : (s r : ApprovalRequest) (n : ℕ) → s ≡ r → r.requested_at ≤ n → s.requested_at ≤ n
requested_le s r n e h = subst (λ x. x.requested_at ≤ n) (sym e) h

le_trans : (k m n : ℕ) → k ≤ m → m ≤ n → k ≤ n
le_trans k m n h j = omega arith

insert-IsDescending :
    (r : ApprovalRequest) (xs : List ApprovalRequest)
    → IsDescending xs
    → IsDescending (insert_by latest_first r xs)
insert-IsDescending r [] h = (λ s m. elim m [ ], tt)
insert-IsDescending r (x ∷ xs) (h, d) = elim (Bool-cases (latest_first r x)) [
  | inl e ↦
      let first = leb_le x.requested_at r.requested_at e in
      subst (λ b. IsDescending (if b then r ∷ x ∷ xs else x ∷ insert_by latest_first r xs)) (sym e)
        (
          λ s m. elim m [
            | inl q ↦ requested_le s x r.requested_at q first
            | inr k ↦ le_trans s.requested_at x.requested_at r.requested_at (h s k) first
          ],
          (h, d),
        )
  | inr e ↦
      let first = leb_ge x.requested_at r.requested_at e in
      subst (λ b. IsDescending (if b then r ∷ x ∷ xs else x ∷ insert_by latest_first r xs)) (sym e)
        (
          λ s m. elim (Has-insert_by latest_first r xs s m) [
            | inl q ↦ requested_le s r x.requested_at q first
            | inr k ↦ h s k
          ],
          insert-IsDescending r xs d,
        )
]

pub order_by-IsDescending : (xs : List ApprovalRequest) → IsDescending (order_by latest_first xs)
order_by-IsDescending [] = tt
order_by-IsDescending (x ∷ xs) =
    insert-IsDescending x (order_by latest_first xs) (order_by-IsDescending xs)

ids-Has :
    (i : ℕ) (xs : List ApprovalRequest)
    → Has i (ids xs)
    → (a : ApprovalRequest) × Has a xs × (i ≡ a.id)
ids-Has i [] h = elim h [ ]
ids-Has i (x ∷ xs) (inl e) = (x, inl refl, e)
ids-Has i (x ∷ xs) (inr h) = let (a, m, e) = ids-Has i xs h in (a, inr m, e)

-- IDs are among those of a list where the rows are among its rows.
ids_mono :
    (i : ℕ) (xs ys : List ApprovalRequest)
    → ((a : ApprovalRequest) → Has a xs → Has a ys)
    → Has i (ids xs)
    → Has i (ids ys)
ids_mono i xs ys g h =
    let (a, m, e) = ids-Has i xs h in subst (λ j. Has j (ids ys)) (sym e) (Has-ids a ys (g a m))

insert-Distinct :
    (r : ApprovalRequest) (xs : List ApprovalRequest)
    → (¬ Has r.id (ids xs))
    → Distinct (ids xs)
    → Distinct (ids (insert_by latest_first r xs))
insert-Distinct r [] n d = (n, tt)
insert-Distinct r (x ∷ xs) n (k, d) = elim (Bool-cases (latest_first r x)) [
  | inl e ↦
      subst (λ b. Distinct (ids (if b then r ∷ x ∷ xs else x ∷ insert_by latest_first r xs)))
        (sym e) (n, (k, d))
  | inr e ↦
      subst (λ b. Distinct (ids (if b then r ∷ x ∷ xs else x ∷ insert_by latest_first r xs)))
        (sym e)
        (
          λ h.
              elim (ids_mono x.id (insert_by latest_first r xs) (r ∷ xs)
                (λ a m. Has-insert_by latest_first r xs a m) h) [
                  | inl q ↦ n (inl (sym q))
                  | inr m ↦ k m
                ],
          insert-Distinct r xs (λ m. n (inr m)) d,
        )
]

pub order_by-Distinct :
    (xs : List ApprovalRequest) → Distinct (ids xs) → Distinct (ids (order_by latest_first xs))
order_by-Distinct [] d = tt
order_by-Distinct (x ∷ xs) (n, d) =
    insert-Distinct x (order_by latest_first xs)
      (λ h. n (ids_mono x.id (order_by latest_first xs) xs (Has-order_by latest_first xs) h))
      (order_by-Distinct xs d)

pub select_all-Distinct :
    (p : ApprovalRequest → Bool) (xs : List ApprovalRequest)
    → Distinct (ids xs)
    → Distinct (ids (select_all p xs))
select_all-Distinct p [] d = tt
select_all-Distinct p (x ∷ xs) (n, d) = elim (Bool-cases (p x)) [
  | inl e ↦
      subst (λ b. Distinct (ids (if b then x ∷ select_all p xs else select_all p xs))) (sym e)
        (
          λ h. n (ids_mono x.id (select_all p xs) xs (λ a m. (Has-select_all p xs a m).0) h),
          select_all-Distinct p xs d,
        )
  | inr e ↦
      subst (λ b. Distinct (ids (if b then x ∷ select_all p xs else select_all p xs))) (sym e)
        (select_all-Distinct p xs d)
]
