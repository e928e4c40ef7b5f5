-- ===== src/Validator/Accepts.antt =====
-- What a workflow that the validator accepts satisfies (`Validate` and `validateSteps` of
-- internal/validators/workflow_validator.go).
use intelligent_workflows.Prelude.{
  String, true, false, List, [], ◌∷◌, Option, none, some, ◌==◌, ◌≡◌, ◌≢◌, refl, if◌then◌else◌,
  arith, member, All, eq_iff, eq_refl, Bool-cases, inl, inr, ◌⊎◌,
}
use intelligent_workflows.Value.{Go}
use intelligent_workflows.Models.Workflow.{
  Step, step, StepInfo, ParallelStep, Workflow, info, WaitConfig, Condition, Action,
  TriggerDefinition,
}
use intelligent_workflows.Validator.{
  validate, validate_steps, steps_errors, step_errors, validate_step, type_errors, condition_errors,
  inline_errors, action_errors, wait_errors, id_errors, ids_of, step_types, trigger_types,
  validate_trigger, validate_condition,
}
use intelligent_workflows.Validator.Reports.{
  append-nil_inv, report-nil, report_error-nil, failure-none, Resolves, dangling-Resolves,
  not_blank, not-false,
}
use intelligent_workflows.Validator.Configured.{
  IsParallel, IsExecutable, parallel_errors-nil, execute_errors-nil,
}
use intelligent_workflows.Validator.Cycles.{ids, validate_no_cycles}
use intelligent_workflows.Validator.Cycles.Paths.{Circle}
use intelligent_workflows.Validator.Cycles.Correct.{graph_of, validate_no_cycles_iff}

-- All IDs are distinct and none is empty, and no ID is in the list `seen`.
abbrev pub Distinct : List String → List Step → Type 0
Distinct seen [] = Unit
Distinct seen (s ∷ ss) =
    ((info s).id ≢ "") × (member (info s).id seen ≡ false) × Distinct ((info s).id ∷ seen) ss

id_errors-Distinct :
    (seen : List String) (steps : List Step) → id_errors seen steps ≡ [] → Distinct seen steps
unfolding id_errors
id_errors-Distinct seen [] h = tt
id_errors-Distinct seen (s ∷ ss) h = elim (Bool-cases ((info s).id == "")) [
  | inl blank ↦ cc (rw (blank, id_errors) at h)
  | inr named ↦
      let (fresh, rest) = append-nil_inv _ _ (rw (named, id_errors) at h) in
      (
        λ e. cc (rw (e, eq_refl "") at named),
        report-nil _ _ fresh,
        id_errors-Distinct ((info s).id ∷ seen) ss rest,
      )
]

ids_of-member :
    (seen : List String) (steps : List Step) (n : String)
    → member n (ids_of seen steps) ≡ true
    → (member n seen ≡ true) ⊎ (member n (ids steps) ≡ true)
unfolding ids_of
ids_of-member seen [] n h = inl h
ids_of-member seen (s ∷ ss) n h = ground (
  arith,
  ids_of-member (if (info s).id == "" then seen else (info s).id ∷ seen) ss n h,
  eq_iff n (info s).id,
)

abbrev pub parallel_of : Step → ParallelStep
parallel_of (step i p f) = p

-- What the validator guarantees of one step, where `step_ids` are the IDs of the workflow.
pub record IsChecked (step_ids : List String) (s : Step) : Type 0 where
  pub typed : member (info s).type step_types ≡ true
  pub condition_step :
      (info s).type ≡ "condition"
      → ((c : Condition) × ((info s).condition ≡ some c) × (validate_condition c ≡ none))
        × Resolves step_ids (info s).on_true
        × Resolves step_ids (info s).on_false
  pub action_step : (info s).type ≡ "action" → (a : Action) × ((info s).action ≡ some a)
  pub parallel_step : (info s).type ≡ "parallel" → IsParallel (parallel_of s)
  pub execute_step :
      (info s).type ≡ "execute" → ((info s).execute ≢ []) × All IsExecutable (info s).execute
  pub wait_step :
      (info s).type ≡ "wait"
      → (w : WaitConfig) × ((info s).wait ≡ some w)
        × (w.event ≢ "")
        × Resolves step_ids w.on_timeout

inline_errors-nil :
    (id : String) (o : Option Condition)
    → inline_errors id o ≡ []
    → (c : Condition) × (o ≡ some c) × (validate_condition c ≡ none)
unfolding inline_errors
inline_errors-nil id none h = cc
inline_errors-nil id (some c) h = (c, refl, report_error-nil _ _ h)

action_errors-nil :
    (id : String) (o : Option Action) → action_errors id o ≡ [] → (a : Action) × (o ≡ some a)
unfolding action_errors
action_errors-nil id none h = cc
action_errors-nil id (some a) h = (a, refl)

-- `step_ids` are the keys that the validator looks up, and `known` the IDs of the steps.
module _ (step_ids known : List String)
    (listed : (n : String) → member n step_ids ≡ true → member n known ≡ true) where
  condition_errors-nil :
      (i : StepInfo)
      → condition_errors i step_ids ≡ []
      → ((c : Condition) × (i.condition ≡ some c) × (validate_condition c ≡ none))
        × Resolves known i.on_true
        × Resolves known i.on_false
  unfolding condition_errors
  condition_errors-nil i h =
      let (first, rest) = append-nil_inv (inline_errors i.id i.condition) _ h in
      let (on_true, on_false) = append-nil_inv _ _ rest in
      (
        inline_errors-nil i.id i.condition first,
        dangling-Resolves step_ids known listed i.on_true (report-nil _ _ on_true),
        dangling-Resolves step_ids known listed i.on_false (report-nil _ _ on_false),
      )

  wait_errors-nil :
      (id : String) (o : Option WaitConfig)
      → wait_errors id step_ids o ≡ []
      → (w : WaitConfig) × (o ≡ some w) × (w.event ≢ "") × Resolves known w.on_timeout
  unfolding wait_errors
  wait_errors-nil id none h = cc
  wait_errors-nil id (some w) h =
      let (event, on_timeout) = append-nil_inv _ _ h in
      (
        w,
        refl,
        not_blank w.event (report-nil _ _ event),
        dangling-Resolves step_ids known listed w.on_timeout (report-nil _ _ on_timeout),
      )

  validate_step-IsChecked :
      (go : Go) (s : Step) → validate_step go s step_ids ≡ none → IsChecked known s
  unfolding validate_step
  validate_step-IsChecked go (step i p f) h =
      let (typed, rest) = append-nil_inv _ (type_errors go i p step_ids) (failure-none _ _ h) in
      record {
        typed = not-false _ (report-nil _ _ typed);
        condition_step = λ e. condition_errors-nil i (rw (e, type_errors) at rest);
        action_step = λ e. action_errors-nil i.id i.action (rw (e, type_errors) at rest);
        parallel_step = λ e. parallel_errors-nil i p (rw (e, type_errors) at rest);
        execute_step = λ e. execute_errors-nil go i (rw (e, type_errors) at rest);
        wait_step = λ e. wait_errors-nil i.id i.wait (rw (e, type_errors) at rest);
      }

  step_errors-IsChecked :
      (go : Go) (steps : List Step)
      → step_errors go steps step_ids ≡ []
      → All (IsChecked known) steps
  unfolding step_errors
  step_errors-IsChecked go [] h = tt
  step_errors-IsChecked go (s ∷ ss) h =
      let (first, rest) = append-nil_inv _ _ h in
      (validate_step-IsChecked go s (report_error-nil _ _ first), step_errors-IsChecked go ss rest)

-- What the validator guarantees of a workflow that it accepts.
pub record IsAccepted (w : Workflow) : Type 0 where
  pub name : w.name ≢ ""
  pub workflow_id : w.workflow_id ≢ ""
  pub version : w.version ≢ ""
  pub trigger_typed : member w.definition.trigger.type trigger_types ≡ true
  pub event_trigger : w.definition.trigger.type ≡ "event" → w.definition.trigger.event ≢ ""
  pub schedule_trigger : w.definition.trigger.type ≡ "schedule" → w.definition.trigger.cron ≢ ""
  pub not_empty : w.definition.steps ≢ []
  pub distinct : Distinct [] w.definition.steps
  pub checked : All (IsChecked (ids w.definition.steps)) w.definition.steps
  pub acyclic : ¬ Circle (graph_of w.definition.steps)

validate_trigger-none :
    (t : TriggerDefinition)
    → validate_trigger t ≡ none
    → (member t.type trigger_types ≡ true)
      × (t.type ≡ "event" → t.event ≢ "")
      × (t.type ≡ "schedule" → t.cron ≢ "")
unfolding validate_trigger
validate_trigger-none t h = (
  ground arith,
  λ e empty. cc (rw (e, empty, validate_trigger) at h),
  λ e empty. cc (rw (e, empty, validate_trigger) at h),
)

-- What a list of steps satisfies that the validator accepts.
pub record AreAccepted (steps : List Step) : Type 0 where
  pub not_empty : steps ≢ []
  pub distinct : Distinct [] steps
  pub checked : All (IsChecked (ids steps)) steps
  pub no_cycles : validate_no_cycles steps ≡ none

pub steps_errors-AreAccepted :
    (go : Go) (steps : List Step) → steps_errors go steps ≡ [] → AreAccepted steps
unfolding steps_errors
steps_errors-AreAccepted go [] h = cc
steps_errors-AreAccepted go (s ∷ ss) h =
    let parts =
      failure-none _ _
        (unfold validate_steps in report_error-nil [] (validate_steps go (s ∷ ss)) h) in
    let (id, rest) = append-nil_inv (id_errors [] (s ∷ ss)) _ parts in
    let (each, cycles) = append-nil_inv (step_errors go (s ∷ ss) (ids_of [] (s ∷ ss))) _ rest in
    record {
      not_empty = λ e. cc;
      distinct = id_errors-Distinct [] (s ∷ ss) id;
      checked =
          step_errors-IsChecked (ids_of [] (s ∷ ss)) (ids (s ∷ ss))
            (λ n m. elim (ids_of-member [] (s ∷ ss) n m) [ inl f ↦ cc | inr r ↦ r ]) go (s ∷ ss)
            each;
      no_cycles = report_error-nil [] (validate_no_cycles (s ∷ ss)) cycles;
    }

-- A workflow that `Validate` accepts has a name, an ID and a version, a trigger of a known type with
-- the event name or cron expression that its type needs, and at least one step; its steps have
-- distinct IDs that are not empty and a known type. A condition step has a condition that is valid, and
-- its on_true and on_false are empty or name a step; an action step has an action; a parallel step has
-- sub-steps, and a known strategy or none; an execute step has actions, each with the fields that its
-- type needs; a wait step has an event, and its on_timeout is empty or names a step. No on_true,
-- on_false and on_timeout go round in a circle.
pub validate-IsAccepted : (go : Go) (w : Workflow) → validate go w ≡ none → IsAccepted w
unfolding validate
validate-IsAccepted go w h =
    let (name, r1) = append-nil_inv _ _ (failure-none _ _ h) in
    let (workflow_id, r2) = append-nil_inv _ _ r1 in
    let (version, r3) = append-nil_inv _ _ r2 in
    let (trigger, steps) = append-nil_inv _ (steps_errors go w.definition.steps) r3 in
    let t = validate_trigger-none w.definition.trigger (report_error-nil [] _ trigger) in
    let a = steps_errors-AreAccepted go w.definition.steps steps in
    record {
      name = not_blank w.name (report-nil _ _ name);
      workflow_id = not_blank w.workflow_id (report-nil _ _ workflow_id);
      version = not_blank w.version (report-nil _ _ version);
      trigger_typed = t.0;
      event_trigger = t.1;
      schedule_trigger = t.2;
      not_empty = a.not_empty;
      distinct = a.distinct;
      checked = a.checked;
      acyclic = (validate_no_cycles_iff w.definition.steps).0 a.no_cycles;
    }
