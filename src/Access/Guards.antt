-- ===== src/Access/Guards.antt =====
-- The checks of permissions and roles (internal/api/rest/middleware/rbac.go). A request is what its
-- context holds under "claims", if that is of the right type; the handler behind a check is a function
-- of the request. Logging is left out.
use intelligent_workflows.Prelude.{
  ℕ, String, Bool, true, false, List, [], ◌∷◌, Option, none, some, ◌==◌, if◌then◌else◌,
}

pub record Claims : Type 0 where
  pub user_id : ℕ
  pub organization_id : ℕ
  pub username : String
  pub email : String
  pub roles : List String
  pub permissions : List String

-- `respondError`: the status code and the message; or what the handler behind answers.
pub data Response {ℓ} (A : Type ℓ) : Type ℓ where
  responded : ℕ → String → Response A
  served : A → Response A

abbrev pub unauthorized : {A : Type 0} → Response A
unauthorized = responded 401 "Unauthorized"

abbrev pub forbidden : {A : Type 0} → String → Response A
forbidden text = responded 403 text

unfoldable pub has_permission : List String → String → Bool
has_permission [] required = false
has_permission (p ∷ ps) required = if p == required then true else has_permission ps required

unfoldable pub has_role : List String → String → Bool
has_role [] required = false
has_role (r ∷ rs) required = if r == required then true else has_role rs required

-- The loops that set `hasAny`.
abbrev pub any_of : (String → Bool) → List String → Bool
any_of test [] = false
any_of test (x ∷ xs) = if test x then true else any_of test xs

-- The loop of `RequireAllPermissions`, which returns at the first that is missing.
abbrev pub all_of : (String → Bool) → List String → Bool
all_of test [] = true
all_of test (x ∷ xs) = if test x then all_of test xs else false

module _ {A : Type 0} (next : Claims → A) where
  -- The answer to claims that pass the check or do not.
  abbrev pub guard : (Claims → Bool) → String → Option Claims → Response A
  guard test text none = unauthorized
  guard test text (some c) = if test c then served (next c) else forbidden text

  unfoldable pub require_permission : String → Option Claims → Response A
  unfolding has_permission
  require_permission permission =
      guard (λ c. has_permission c.permissions permission) "Insufficient permissions"

  unfoldable pub require_any_permission : List String → Option Claims → Response A
  unfolding has_permission
  require_any_permission permissions =
      guard (λ c. any_of (has_permission c.permissions) permissions) "Insufficient permissions"

  unfoldable pub require_all_permissions : List String → Option Claims → Response A
  unfolding has_permission
  require_all_permissions permissions =
      guard (λ c. all_of (has_permission c.permissions) permissions) "Insufficient permissions"

  unfoldable pub require_role : String → Option Claims → Response A
  unfolding has_role
  require_role role = guard (λ c. has_role c.roles role) "Insufficient privileges"

  unfoldable pub require_any_role : List String → Option Claims → Response A
  unfolding has_role
  require_any_role roles = guard (λ c. any_of (has_role c.roles) roles) "Insufficient privileges"
