-- ===== src/Validator.antt =====
-- Validation of workflow definitions (internal/validators/workflow_validator.go). A check returns
-- the error that Go returns, `none` for nil; a check that collects messages is a list of texts.
pub mod Cycles
pub mod Accepts
pub mod Reports
pub mod Configured
pub mod Operators
use intelligent_workflows.Prelude.{
  ℕ, suc, String, Bool, true, false, not, ◌&&◌, ◌||◌, List, [], ◌∷◌, ◌++◌, Option, none, some, ◌==◌,
  if◌then◌else◌, Err, msg, error_text, member, concat, join_with,
}
use intelligent_workflows.Value.{pos, Value, null, int, Go}
use intelligent_workflows.Models.Workflow.{
  TriggerDefinition, Action, ExecuteAction, WaitConfig, Condition, condition, Conditions,
  no_conditions, more_conditions, StepInfo, Step, step, ParallelStep, no_parallel, parallel, Steps,
  no_steps, more_steps, info, Workflow,
}
use intelligent_workflows.Validator.Cycles.{validate_no_cycles}

abbrev pub trigger_types : List String
trigger_types = "event" ∷ "schedule" ∷ "manual" ∷ []

unfoldable pub validate_trigger : TriggerDefinition → Option Err
validate_trigger t =
    if t.type == ""
    then some (msg "trigger type is required")
    else if not (member t.type trigger_types)
    then some (
        msg (
          concat (
            "invalid trigger type '" ∷ t.type ∷ "', must be one of: event, schedule, manual" ∷ [])))
    else if (t.type == "event") && (t.event == "")
    then some (msg "event trigger requires event name")
    else if (t.type == "schedule") && (t.cron == "")
    then some (msg "schedule trigger requires cron expression")
    else none

abbrev pub is_empty : Conditions → Bool
is_empty no_conditions = true
is_empty (more_conditions c cs) = false

abbrev pub is_null : Value → Bool
is_null null = true
is_null _ = false

abbrev pub operators : List String
operators = "eq" ∷ "neq" ∷ "gt" ∷ "gte" ∷ "lt" ∷ "lte" ∷ "in" ∷ "contains" ∷ "regex" ∷ []

-- An early `return` of an error, and what follows it.
infixr 5 ◌or_else◌
abbrev pub ◌or_else◌ : Option Err → Option Err → Option Err
some e or_else rest = some e
none or_else rest = rest

-- `fmt.Errorf("prefix%v", err)` where there is an error
abbrev pub prefixed : String → Option Err → Option Err
prefixed prefix none = none
prefixed prefix (some e) = some (msg (concat (prefix ∷ error_text e ∷ [])))

-- The part of `validateCondition` above the two loops.
unfoldable pub validate_field : String → String → Value → Conditions → Conditions → Option Err
validate_field name op value ands ors =
    if (name == "") && (is_empty ands && is_empty ors)
    then some (msg "condition must have field or and/or clauses")
    else if name == ""
    then none
    else if not (member op operators)
    then some (msg (concat ("invalid operator '" ∷ op ∷ "'" ∷ [])))
    else if is_null value
    then some (msg "condition value is required")
    else none

unfoldable mutual
  unfolding validate_field error_text

  pub validate_condition : Condition → Option Err
  validate_condition (condition name op value ands ors) =
      validate_field name op value ands ors
      or_else validate_conditions "and condition: " ands
      or_else validate_conditions "or condition: " ors

  -- The loops over `And` and `Or`.
  pub validate_conditions : String → Conditions → Option Err
  validate_conditions prefix no_conditions = none
  validate_conditions prefix (more_conditions c cs) =
      prefixed prefix (validate_condition c) or_else validate_conditions prefix cs

abbrev pub methods : List String
methods = "GET" ∷ "POST" ∷ "PUT" ∷ "DELETE" ∷ "PATCH" ∷ []

abbrev pub no_recipients : List String → Bool
no_recipients [] = true
no_recipients (r ∷ rs) = false

unfoldable pub validate_execute_action : ExecuteAction → Option Err
validate_execute_action a =
    if a.type == ""
    then some (msg "execute action type is required")
    else if a.type == "notify"
    then (if no_recipients a.recipients
        then some (msg "notify action requires recipients")
        else if a.message == ""
        then some (msg "notify action requires message")
        else none)
    else if (a.type == "webhook") || (a.type == "http_request")
    then (if a.url == ""
        then some (msg (concat (a.type ∷ " action requires URL" ∷ [])))
        else if not (a.method == "") && not (member a.method methods)
        then some (msg (concat ("invalid HTTP method: " ∷ a.method ∷ [])))
        else none)
    else if (a.type == "create_record")
        || ((a.type == "update_record") || (a.type == "delete_record"))
    then (if a.entity == ""
        then some (msg (concat (a.type ∷ " action requires entity" ∷ [])))
        else if not (a.type == "create_record") && (a.entity_id == "")
        then some (msg (concat (a.type ∷ " action requires entity_id" ∷ [])))
        else none)
    else none

-- A message that is appended under a condition.
unfoldable pub report : Bool → List String → List String
report true parts = concat parts ∷ []
report false parts = []

unfoldable pub report_error : List String → Option Err → List String
unfolding error_text
report_error parts none = []
report_error parts (some e) = concat (parts ++ error_text e ∷ []) ∷ []

abbrev pub step_types : List String
step_types = "condition" ∷ "action" ∷ "parallel" ∷ "execute" ∷ "wait" ∷ []

abbrev pub strategies : List String
strategies = "all_must_pass" ∷ "any_can_pass" ∷ "best_effort" ∷ []

-- A reference that is not empty and names no step.
abbrev pub dangling : List String → String → Bool
dangling step_ids name = not (name == "") && not (member name step_ids)

-- The messages about `step.Condition`, for the step with the given ID.
unfoldable pub inline_errors : String → Option Condition → List String
unfolding validate_condition
inline_errors id none = concat ("step " ∷ id ∷ " (condition) must have a condition" ∷ []) ∷ []
inline_errors id (some c) = report_error ("step " ∷ id ∷ ": " ∷ []) (validate_condition c)

unfoldable pub condition_errors : StepInfo → List String → List String
unfolding inline_errors
condition_errors i step_ids =
    inline_errors i.id i.condition
    ++ (report (dangling step_ids i.on_true)
          ("step " ∷ i.id ∷ " references non-existent on_true step: " ∷ i.on_true ∷ [])
        ++ report (dangling step_ids i.on_false)
            ("step " ∷ i.id ∷ " references non-existent on_false step: " ∷ i.on_false ∷ []))

unfoldable pub action_errors : String → Option Action → List String
action_errors id none = concat ("step " ∷ id ∷ " (action) must have an action" ∷ []) ∷ []
action_errors id (some a) = []

abbrev pub no_sub_steps : Steps → Bool
no_sub_steps no_steps = true
no_sub_steps (more_steps s ss) = false

unfoldable pub parallel_errors : StepInfo → ParallelStep → List String
parallel_errors i no_parallel =
    concat ("step " ∷ i.id ∷ " (parallel) must have parallel configuration" ∷ []) ∷ []
parallel_errors i (parallel strategy steps) =
    report (no_sub_steps steps)
      ("step " ∷ i.id ∷ " (parallel) must have at least one sub-step" ∷ [])
    ++ report (dangling strategies strategy)
        ("step " ∷ i.id ∷ " has invalid parallel strategy: " ∷ strategy ∷ [])

unfoldable pub wait_errors : String → List String → Option WaitConfig → List String
wait_errors id step_ids none =
    concat ("step " ∷ id ∷ " (wait) must have wait configuration" ∷ []) ∷ []
wait_errors id step_ids (some w) =
    report (w.event == "") ("step " ∷ id ∷ " (wait) must have an event to wait for" ∷ [])
    ++ report (dangling step_ids w.on_timeout)
        ("step " ∷ id ∷ " references non-existent on_timeout step: " ∷ w.on_timeout ∷ [])

-- The first loop of `validateSteps`: its messages, and the keys of `stepIDs`.
unfoldable pub id_errors : List String → List Step → List String
id_errors step_ids [] = []
id_errors step_ids (s ∷ ss) =
    if (info s).id == ""
    then "all steps must have an ID" ∷ id_errors step_ids ss
    else (report (member (info s).id step_ids) ("duplicate step ID: " ∷ (info s).id ∷ [])
        ++ id_errors ((info s).id ∷ step_ids) ss)

unfoldable pub ids_of : List String → List Step → List String
ids_of step_ids [] = step_ids
ids_of step_ids (s ∷ ss) =
    ids_of (if (info s).id == "" then step_ids else (info s).id ∷ step_ids) ss

-- The error of a list of messages.
abbrev pub failure : String → List String → Option Err
failure prefix [] = none
failure prefix (m ∷ ms) = some (msg (concat (prefix ∷ join_with "; " (m ∷ ms) ∷ [])))

module _ (go : Go) where
  -- The loop over `step.Execute`, from the index `j` on.
  unfoldable pub action_list_errors : StepInfo → ℕ → List ExecuteAction → List String
  unfolding validate_execute_action
  action_list_errors i j [] = []
  action_list_errors i j (a ∷ rest) =
      report_error ("step " ∷ i.id ∷ " action " ∷ go.sprint (int (pos j)) ∷ ": " ∷ [])
        (validate_execute_action a)
      ++ action_list_errors i (suc j) rest

  unfoldable pub execute_errors : StepInfo → List String
  unfolding action_list_errors
  execute_errors i = elim i.execute [
    | [] ↦ concat ("step " ∷ i.id ∷ " (execute) must have at least one execute action" ∷ []) ∷ []
    | a ∷ rest ↦ action_list_errors i 0 (a ∷ rest)
  ]

  -- The `switch` of `validateStep`.
  unfoldable pub type_errors : StepInfo → ParallelStep → List String → List String
  unfolding condition_errors action_errors parallel_errors execute_errors wait_errors
  type_errors i p step_ids =
      if i.type == "condition"
      then condition_errors i step_ids
      else if i.type == "action"
      then action_errors i.id i.action
      else if i.type == "parallel"
      then parallel_errors i p
      else if i.type == "execute"
      then execute_errors i
      else if i.type == "wait"
      then wait_errors i.id step_ids i.wait
      else []

  unfoldable pub validate_step : Step → List String → Option Err
  unfolding type_errors
  validate_step (step i p f) step_ids = failure "" (
      report (not (member i.type step_types))
        ("step " ∷ i.id ∷ " has invalid type '" ∷ i.type ∷ "'" ∷ [])
      ++ type_errors i p step_ids)

  -- The second loop of `validateSteps`.
  unfoldable pub step_errors : List Step → List String → List String
  unfolding validate_step
  step_errors [] step_ids = []
  step_errors (s ∷ ss) step_ids =
      report_error [] (validate_step s step_ids) ++ step_errors ss step_ids

  unfoldable pub validate_steps : List Step → Option Err
  unfolding id_errors ids_of step_errors validate_no_cycles
  validate_steps steps = failure "step validation errors: " (
      id_errors [] steps
      ++ (step_errors steps (ids_of [] steps) ++ report_error [] (validate_no_cycles steps)))

  unfoldable pub steps_errors : List Step → List String
  unfolding validate_steps
  steps_errors [] = "workflow must have at least one step" ∷ []
  steps_errors (s ∷ ss) = report_error [] (validate_steps (s ∷ ss))

  unfoldable pub validate : Workflow → Option Err
  unfolding validate_trigger steps_errors
  validate w = failure "workflow validation failed: " (
      report (w.name == "") ("workflow name is required" ∷ [])
      ++ (report (w.workflow_id == "") ("workflow_id is required" ∷ [])
          ++ (report (w.version == "") ("version is required" ∷ [])
              ++ (report_error [] (validate_trigger w.definition.trigger)
                  ++ steps_errors w.definition.steps))))
