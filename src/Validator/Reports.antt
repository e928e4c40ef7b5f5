-- ===== src/Validator/Reports.antt =====
-- Messages of the validator (internal/validators/workflow_validator.go): what follows where there are
-- none.
use intelligent_workflows.Prelude.{
  String, Bool, true, false, not, List, [], ◌∷◌, ◌++◌, Option, none, some, ◌==◌, ◌≡◌, ◌≢◌, refl,
  Err, arith, member, eq_iff, ◌⊎◌,
}
use intelligent_workflows.Validator.{report, report_error, failure, dangling}

pub append-nil_inv {ℓ} : {A : Type ℓ} (xs ys : List A) → xs ++ ys ≡ [] → (xs ≡ []) × (ys ≡ [])
append-nil_inv [] ys h = (refl, h)
append-nil_inv (x ∷ xs) ys h = cc

pub report-nil : (b : Bool) (parts : List String) → report b parts ≡ [] → b ≡ false
unfolding report
report-nil true parts h = cc
report-nil false parts h = refl

pub report_error-nil : (parts : List String) (e : Option Err) → report_error parts e ≡ [] → e ≡ none
unfolding report_error
report_error-nil parts none h = refl
report_error-nil parts (some e) h = cc

pub failure-none : (prefix : String) (ms : List String) → failure prefix ms ≡ none → ms ≡ []
failure-none prefix [] h = refl
failure-none prefix (m ∷ ms) h = cc

-- A reference is empty or names a step.
abbrev pub Resolves : List String → String → Type 0
Resolves step_ids name = (name ≡ "") ⊎ (member name step_ids ≡ true)

pub not_blank : (name : String) → (name == "") ≡ false → name ≢ ""
not_blank name h e = ground (arith, eq_iff name "")

pub not-false : (b : Bool) → not b ≡ false → b ≡ true
not-false true h = refl
not-false false h = cc

-- A reference that is not dangling, where the first list has names of the second only.
pub dangling-Resolves :
    (step_ids known : List String)
    → ((n : String) → member n step_ids ≡ true → member n known ≡ true)
    → (name : String) → dangling step_ids name ≡ false
    → Resolves known name
dangling-Resolves step_ids known listed name h = ground (arith, eq_iff name "", listed name)
