-- ===== src/Validator/Configured.antt =====
-- The configuration of parallel and execute steps that the validator accepts
-- (internal/validators/workflow_validator.go).
use intelligent_workflows.Prelude.{
  ℕ, suc, Bool, true, false, not, List, [], ◌∷◌, Option, none, some, ◌==◌, ◌≡◌, ◌≢◌, refl,
  if◌then◌else◌, ◌&&◌, Err, msg, member, All, ◌⊎◌, inl, inr,
}
use intelligent_workflows.Value.{Go}
use intelligent_workflows.Models.Workflow.{
  StepInfo, ParallelStep, no_parallel, parallel, no_steps, ExecuteAction,
}
use intelligent_workflows.Validator.{
  report, strategies, methods, no_recipients, no_sub_steps, parallel_errors, execute_errors,
  action_list_errors, validate_execute_action,
}
use intelligent_workflows.Validator.Reports.{
  append-nil_inv, report-nil, report_error-nil, Resolves, dangling-Resolves, not_blank,
}

-- There are sub-steps, and a strategy, if one is given, is one of the three.
abbrev pub IsParallel : ParallelStep → Type 0
IsParallel no_parallel = ⊥
IsParallel (parallel strategy steps) =
    (steps ≢ no_steps) × Resolves ("all_must_pass" ∷ "any_can_pass" ∷ "best_effort" ∷ []) strategy

pub parallel_errors-nil :
    (i : StepInfo) (p : ParallelStep) → parallel_errors i p ≡ [] → IsParallel p
unfolding parallel_errors
parallel_errors-nil i no_parallel h = cc
parallel_errors-nil i (parallel strategy steps) h =
    let (some_steps, known) = append-nil_inv (report (no_sub_steps steps) _) _ h in
    let filled : no_sub_steps steps ≡ false = report-nil _ _ some_steps in
    (
      λ e. cc (rw (e) at filled),
      dangling-Resolves strategies strategies (λ n m. m) strategy (report-nil _ _ known),
    )

-- An action with the fields that its type needs.
pub record IsExecutable (a : ExecuteAction) : Type 0 where
  pub typed : a.type ≢ ""
  pub notify : a.type ≡ "notify" → (a.recipients ≢ []) × (a.message ≢ "")
  pub call :
      (a.type ≡ "webhook") ⊎ (a.type ≡ "http_request")
      → (a.url ≢ "") × Resolves ("GET" ∷ "POST" ∷ "PUT" ∷ "DELETE" ∷ "PATCH" ∷ []) a.method
  pub create : a.type ≡ "create_record" → a.entity ≢ ""
  pub change :
      (a.type ≡ "update_record") ⊎ (a.type ≡ "delete_record") → (a.entity ≢ "") × (a.entity_id ≢ "")

-- The two checks of a type.
unchecked :
    (b c : Bool) (x y : Err)
    → ◌≡◌ {A = Option Err} (if b then some x else if c then some y else none) none
    → (b ≡ false) × (c ≡ false)
unchecked true c x y h = cc
unchecked false true x y h = cc
unchecked false false x y h = (refl, refl)

named : (a : ExecuteAction) → validate_execute_action a ≡ none → a.type ≢ ""
unfolding validate_execute_action
named a h e = cc (rw (e, validate_execute_action) at h)

validate_notify :
    (a : ExecuteAction)
    → validate_execute_action a ≡ none
    → a.type ≡ "notify"
    → (a.recipients ≢ []) × (a.message ≢ "")
unfolding validate_execute_action
validate_notify a h e =
    let (r, m) =
      unchecked (no_recipients a.recipients) (a.message == "") _ _
        (rw (e, validate_execute_action) at h) in
    (λ k. cc (rw (k) at r), not_blank a.message m)

validate_call :
    (a : ExecuteAction)
    → validate_execute_action a ≡ none
    → (a.type ≡ "webhook") ⊎ (a.type ≡ "http_request")
    → (a.url ≢ "") × Resolves methods a.method
unfolding validate_execute_action
validate_call a h (inl e) =
    let (u, m) =
      unchecked (a.url == "") (not (a.method == "") && not (member a.method methods)) _ _
        (rw (e, validate_execute_action) at h) in
    (not_blank a.url u, dangling-Resolves methods methods (λ n k. k) a.method m)
validate_call a h (inr e) =
    let (u, m) =
      unchecked (a.url == "") (not (a.method == "") && not (member a.method methods)) _ _
        (rw (e, validate_execute_action) at h) in
    (not_blank a.url u, dangling-Resolves methods methods (λ n k. k) a.method m)

validate_create :
    (a : ExecuteAction)
    → validate_execute_action a ≡ none
    → a.type ≡ "create_record"
    → a.entity ≢ ""
unfolding validate_execute_action
validate_create a h e =
    not_blank a.entity
      (unchecked (a.entity == "") false _ (msg "") (rw (e, validate_execute_action) at h)).0

validate_change :
    (a : ExecuteAction)
    → validate_execute_action a ≡ none
    → (a.type ≡ "update_record") ⊎ (a.type ≡ "delete_record")
    → (a.entity ≢ "") × (a.entity_id ≢ "")
unfolding validate_execute_action
validate_change a h (inl e) =
    let (n, i) =
      unchecked (a.entity == "") (a.entity_id == "") _ _ (rw (e, validate_execute_action) at h) in
    (not_blank a.entity n, not_blank a.entity_id i)
validate_change a h (inr e) =
    let (n, i) =
      unchecked (a.entity == "") (a.entity_id == "") _ _ (rw (e, validate_execute_action) at h) in
    (not_blank a.entity n, not_blank a.entity_id i)

action_list_errors-nil :
    (go : Go) (i : StepInfo) (j : ℕ) (actions : List ExecuteAction)
    → action_list_errors go i j actions ≡ []
    → All IsExecutable actions
unfolding action_list_errors
action_list_errors-nil go i j [] h = tt
action_list_errors-nil go i j (a ∷ rest) h =
    let (first, others) = append-nil_inv _ (action_list_errors go i (suc j) rest) h in
    let e = report_error-nil _ (validate_execute_action a) first in
    (
      record {
        typed = named a e;
        notify = validate_notify a e;
        call = validate_call a e;
        create = validate_create a e;
        change = validate_change a e;
      },
      action_list_errors-nil go i (suc j) rest others,
    )

listed_actions-nil :
    (go : Go) (i : StepInfo) (actions : List ExecuteAction)
    → i.execute ≡ actions
    → execute_errors go i ≡ []
    → (actions ≢ []) × All IsExecutable actions
unfolding execute_errors
listed_actions-nil go i [] e h = cc (rw (e, execute_errors) at h)
listed_actions-nil go i (a ∷ rest) e h =
    (λ k. cc, action_list_errors-nil go i 0 (a ∷ rest) (rw (e, execute_errors) at h))

pub execute_errors-nil :
    (go : Go) (i : StepInfo)
    → execute_errors go i ≡ []
    → (i.execute ≢ []) × All IsExecutable i.execute
execute_errors-nil go i = listed_actions-nil go i i.execute refl
