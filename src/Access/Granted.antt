-- ===== src/Access/Granted.antt =====
-- When the checks of permissions and roles (internal/api/rest/middleware/rbac.go) let a request pass.
use intelligent_workflows.Prelude.{
  String, Bool, true, ◌≡◌, ◌↔◌, ◌⊎◌, inl, inr, refl, sym, ap, ◌∙◌, subst, List, [], ◌∷◌, Option,
  none, some, ◌==◌, if◌then◌else◌, Has, Bool-cases, eq_iff,
}
use mathlib.Core.Bool.{false≢true}
use intelligent_workflows.Access.Guards.{
  Claims, Response, responded, served, has_permission, has_role, any_of, all_of, guard,
  require_permission, require_any_permission, require_all_permissions, require_role,
  require_any_role,
}

-- A request without claims is unauthorized. One with claims is served, by the handler behind, where the
-- claims have the property, and is forbidden where they have not.
abbrev pub IsGuarded :
    {A : Type 0} → (Claims → A) → (Claims → Type 0) → Option Claims → Response A → Type 0
IsGuarded next P none r = r ≡ responded 401 "Unauthorized"
IsGuarded next P (some c) r =
    (P c × (r ≡ served (next c))) ⊎ ((¬ P c) × ((text : String) × (r ≡ responded 403 text)))

has_permission_iff : (ps : List String) (p : String) → has_permission ps p ≡ true ↔ Has p ps
unfolding has_permission
has_permission_iff [] p = (λ e. elim (false≢true e) [ ], λ h. elim h [ ])
has_permission_iff (q ∷ ps) p = elim (Bool-cases (q == p)) [
  | inl e ↦ rw (e) (λ h. inl (sym ((eq_iff q p).0 e)), λ h. refl)
  | inr e ↦
      let (there, back) = has_permission_iff ps p in
      rw (e) (
        λ h. inr (there h),
        λ h. elim h [
          | inl s ↦ elim (false≢true (sym e ∙ (eq_iff q p).1 (sym s))) [ ]
          | inr m ↦ back m
        ],
      )
]

-- The two functions are the same.
has_role-has_permission : (rs : List String) (r : String) → has_role rs r ≡ has_permission rs r
unfolding has_role has_permission
has_role-has_permission [] r = refl
has_role-has_permission (x ∷ rs) r =
    ap (λ b. if x == r then true else b) (has_role-has_permission rs r)

has_role_iff : (rs : List String) (r : String) → has_role rs r ≡ true ↔ Has r rs
has_role_iff rs r =
    let (there, back) = has_permission_iff rs r in
    let e = has_role-has_permission rs r in (λ h. there (sym e ∙ h), λ m. e ∙ back m)

module _ (test : String → Bool) (P : String → Type 0)
    (test_iff : (x : String) → test x ≡ true ↔ P x) where
  any_of_iff : (xs : List String) → any_of test xs ≡ true ↔ ((x : String) × Has x xs × P x)
  any_of_iff [] = (λ e. elim (false≢true e) [ ], λ t. elim t.1 [ ])
  any_of_iff (x ∷ xs) =
      let (there, back) = any_of_iff xs in
      elim (Bool-cases (test x)) [
        | inl e ↦ rw (e) (λ h. (x, inl refl, (test_iff x).0 e), λ t. refl)
        | inr e ↦ rw (e) (
          λ h. let (y, m, p) = there h in (y, inr m, p),
          λ t. elim t.1 [
            | inl s ↦ elim (false≢true (sym e ∙ (test_iff x).1 (subst P s t.2))) [ ]
            | inr m ↦ back (t.0, m, t.2)
          ],
        )
      ]

  all_of_iff : (xs : List String) → all_of test xs ≡ true ↔ ((x : String) → Has x xs → P x)
  all_of_iff [] = (λ e x h. elim h [ ], λ t. refl)
  all_of_iff (x ∷ xs) =
      let (there, back) = all_of_iff xs in
      elim (Bool-cases (test x)) [
        | inl e ↦ rw (e) (
          λ h y m. elim m [ inl s ↦ subst P (sym s) ((test_iff x).0 e) | inr k ↦ there h y k ],
          λ t. back (λ y k. t y (inr k)),
        )
        | inr e ↦ rw (e) (
          λ h. elim (false≢true h) [ ],
          λ t. elim (false≢true (sym e ∙ (test_iff x).1 (t x (inl refl)))) [ ],
        )
      ]

IsGuarded-guard :
    {A : Type 0} (next : Claims → A) (test : Claims → Bool) (P : Claims → Type 0) (text : String)
    → ((c : Claims) → test c ≡ true ↔ P c)
    → (claims : Option Claims) → IsGuarded next P claims (guard next test text claims)
IsGuarded-guard next test P text test_iff none = refl
IsGuarded-guard next test P text test_iff (some c) = elim (Bool-cases (test c)) [
  | inl e ↦ rw (e) (inl ((test_iff c).0 e, refl))
  | inr e ↦ rw (e) (inr (λ p. false≢true (sym e ∙ (test_iff c).1 p), (text, refl)))
]

-- A request without claims is answered 401 by each check. Claims pass to the handler behind exactly
-- when they have the permission; have some of the permissions; have all of the permissions; have the
-- role; have some of the roles. Otherwise the answer is 403, and the handler is not called.
pub checks-IsGuarded :
    {A : Type 0} (next : Claims → A) (name : String) (names : List String) (claims : Option Claims)
    → IsGuarded next (λ c. Has name c.permissions) claims (require_permission next name claims)
      × IsGuarded next
          (λ c. (x : String) × Has x names × Has x c.permissions)
          claims
          (require_any_permission next names claims)
      × IsGuarded next
          (λ c. (x : String) → Has x names → Has x c.permissions)
          claims
          (require_all_permissions next names claims)
      × IsGuarded next (λ c. Has name c.roles) claims (require_role next name claims)
      × IsGuarded next
          (λ c. (x : String) × Has x names × Has x c.roles)
          claims
          (require_any_role next names claims)
unfolding require_permission require_any_permission require_all_permissions require_role
    require_any_role
checks-IsGuarded next name names claims = (
  IsGuarded-guard next _ (λ c. Has name c.permissions) _
      (λ c. has_permission_iff c.permissions name) claims,
  IsGuarded-guard next _ (λ c. (x : String) × Has x names × Has x c.permissions) _
      (λ c.
        any_of_iff (has_permission c.permissions) (λ x. Has x c.permissions)
          (has_permission_iff c.permissions) names)
      claims,
  IsGuarded-guard next _ (λ c. (x : String) → Has x names → Has x c.permissions) _
      (λ c.
        all_of_iff (has_permission c.permissions) (λ x. Has x c.permissions)
          (has_permission_iff c.permissions) names)
      claims,
  IsGuarded-guard next _ (λ c. Has name c.roles) _ (λ c. has_role_iff c.roles name) claims,
  IsGuarded-guard next _ (λ c. (x : String) × Has x names × Has x c.roles) _
      (λ c. any_of_iff (has_role c.roles) (λ x. Has x c.roles) (has_role_iff c.roles) names) claims,
)
