-- ===== src/Executor/Steps.antt =====
-- A single step (`executeStep` and the functions for its types in internal/engine/executor.go).
-- The goroutines of a parallel step run one after the other, in the order of the list.
pub mod Dispatch
pub mod Strategy
use Prim.Native.String
use intelligent_workflows.Prelude.{
  ℕ, suc, ◌+◌, ◌-◌, String, Bool, true, false, not, ◌&&◌, ◌||◌, List, [], ◌∷◌, Option, none, some,
  ◌==◌, if◌then◌else◌, Err, msg, wrap, paused, Result, ok, err, concat, ltb,
}
use intelligent_workflows.Value.{
  ℤ, pos, negsuc, Value, null, int, list, objects, object, Items, nil, cons, Objects, no_objects,
  more_objects, Fields, put, Go,
}
use intelligent_workflows.Models.Workflow.{
  Condition, Rule, RuleType, condition_rule, WaitConfig, StepInfo, step, parallel, foreach, Steps,
  no_steps, more_steps,
}
use intelligent_workflows.Models.Execution.{waiting, WorkflowExecution}
use intelligent_workflows.Evaluator.{evaluate}
use intelligent_workflows.Executor.State.{
  ◌>>=◌, ◌>>◌, Ext, M, return, ask, get_execution, set_execution, time_now, update_execution,
}
use intelligent_workflows.Executor.Actions.{ActionResult, execute_action}

-- What `executeStep` returns: the next step's ID, the result of an action and the error.
pub record StepOutcome : Type 0 where
  pub next : String
  pub result : Option ActionResult
  pub error : Option Err

abbrev pub failed_with : Err → StepOutcome
failed_with e = record { next = ""; result = none; error = some e }

-- The loops over the results of a parallel step.
unfoldable pub first_failure : (ℕ → String) → ℕ → List (Option Err) → Option Err
first_failure number i [] = none
first_failure number i (none ∷ rs) = first_failure number (suc i) rs
first_failure number i (some e ∷ rs) =
    some (wrap (concat ("parallel step " ∷ number i ∷ " failed" ∷ [])) e)

unfoldable pub any_passed : List (Option Err) → Option Err
any_passed [] = some (msg "all parallel steps failed")
any_passed (none ∷ rs) = none
any_passed (some e ∷ rs) = any_passed rs

-- The `switch` over the strategy.
unfoldable pub parallel_outcome : (ℕ → String) → String → List (Option Err) → Option Err
unfolding first_failure any_passed
parallel_outcome number strategy results =
    if (strategy == "") || (strategy == "all_must_pass")
    then first_failure number 0 results
    else if strategy == "any_can_pass"
    then any_passed results
    else if strategy == "best_effort"
    then none
    else some (msg (concat ("unknown parallel strategy: " ∷ strategy ∷ [])))

abbrev pub rule_type_text : RuleType → String
rule_type_text RuleType.condition_rule = "condition"
rule_type_text RuleType.validation_rule = "validation"
rule_type_text RuleType.enrichment_rule = "enrichment"

abbrev pub is_condition_rule : RuleType → Bool
is_condition_rule RuleType.condition_rule = true
is_condition_rule _ = false

-- The checks of `executeConditionStep` on a loaded rule.
unfoldable pub rule_condition : String → Rule → Result Condition
rule_condition rule_id r =
    if not r.enabled
    then err (msg (concat ("rule " ∷ rule_id ∷ " is disabled" ∷ [])))
    else if not (is_condition_rule r.rule_type)
    then err (
        msg (
          concat (
            "rule "
            ∷ rule_id
            ∷ " is not a condition rule (type: "
            ∷ rule_type_text r.rule_type
            ∷ ")"
            ∷ [])))
    else elim r.conditions [
      | [] ↦ err (msg (concat ("rule " ∷ rule_id ∷ " has no conditions defined" ∷ [])))
      | c ∷ rest ↦ ok c
    ]

abbrev pub loaded_condition : String → Result Rule → Result Condition
loaded_condition rule_id (err e) = err (wrap (concat ("failed to load rule " ∷ rule_id ∷ [])) e)
loaded_condition rule_id (ok r) = rule_condition rule_id r

abbrev pub inline_condition : Option Condition → Result Condition
inline_condition none = err (msg "condition step has no condition or rule_id defined")
inline_condition (some c) = ok c

-- The elements of a slice of values, and of a slice of maps.
abbrev pub item_values : Items → List Value
item_values nil = []
item_values (cons x xs) = x ∷ item_values xs

abbrev pub object_values : Objects → List Value
object_values no_objects = []
object_values (more_objects m ms) = object m ∷ object_values ms

abbrev pub no_sub_steps : Steps → Bool
no_sub_steps no_steps = true
no_sub_steps (more_steps s ss) = false

module _ (go : Go) (ext : Ext) where
  abbrev pub number : ℕ → String
  number n = go.sprint (int (pos n))

  unfoldable pub choose_condition : StepInfo → M (Result Condition)
  unfolding rule_condition
  choose_condition i =
      if i.rule_id == "" then return (inline_condition i.condition) else elim ext.get_by_rule_id [
        | none ↦ return (err (msg "rule_id specified but rule service not configured"))
        | some get_rule ↦ do
          e ← get_execution
          r ← ask (λ n. get_rule n e.organization_id i.rule_id)
          return (loaded_condition i.rule_id r)
      ]

  abbrev pub branch : StepInfo → Bool → String
  branch i true = i.on_true
  branch i false = i.on_false

  abbrev pub evaluated : StepInfo → Result Bool → StepOutcome
  evaluated i (err e) = failed_with (wrap "condition evaluation failed" e)
  evaluated i (ok b) = record { next = branch i b; result = none; error = none }

  abbrev pub chosen : StepInfo → Fields → Result Condition → StepOutcome
  chosen i context (err e) = failed_with e
  chosen i context (ok c) = evaluated i (evaluate go c context)

  unfoldable pub execute_condition_step : StepInfo → Fields → M StepOutcome
  unfolding choose_condition
  execute_condition_step i context = do c ← choose_condition i; return (chosen i context c)

  abbrev pub acted : Result ActionResult → StepOutcome
  acted (err e) = failed_with e
  acted (ok r) = record { next = ""; result = some r; error = none }

  unfoldable pub execute_action_step : StepInfo → Fields → M StepOutcome
  execute_action_step i context = do
    r ← execute_action go ext i.action i.execute context
    return (acted r)

  -- The synthetic step of `executeExecuteStep` has the action `execute`.
  unfoldable pub execute_execute_step : StepInfo → Fields → M StepOutcome
  execute_execute_step i context = elim i.execute [
    | [] ↦ return (failed_with (msg "execute step has no execute actions defined"))
    | a ∷ rest ↦ do
      r ←
          execute_action go ext (some (record { type = "execute"; reason = ""; metadata = none }))
            (a ∷ rest) context
      return (acted r)
  ]

  -- The deadline of a wait: `none` is a nil pointer.
  abbrev pub wait_deadline : ℕ → ℤ → ℕ
  wait_deadline t (pos d) = t + d
  wait_deadline t (negsuc d) = t - suc d

  abbrev pub waiting_at :
      StepInfo → WaitConfig → Option ℕ → ℕ → WorkflowExecution → WorkflowExecution
  waiting_at i w timeout_at since e = record e {
    status = waiting;
    current_step_id = some i.id;
    wait_state = some (record {
      event = w.event;
      timeout_at = timeout_at;
      on_timeout = w.on_timeout;
      waiting_since = since;
    });
  }

  -- The part of `executeWaitStep` below the parsing of the timeout; it returns an error always.
  unfoldable pub pause_at : StepInfo → WaitConfig → Option ℕ → M Err
  unfolding time_now update_execution
  pause_at i w timeout_at = do
    since ← time_now ext
    e ← get_execution
    set_execution (waiting_at i w timeout_at since e)
    failure ← update_execution ext
    return (elim failure [
      | none ↦ paused
      | some x ↦ wrap "failed to update execution to waiting state" x
    ])

  unfoldable pub wait_configured : StepInfo → WaitConfig → M Err
  unfolding pause_at
  wait_configured i w =
      if w.timeout == "" then pause_at i w none else elim (go.parse_duration w.timeout) [
        | err e ↦ return (wrap "invalid timeout duration" e)
        | ok d ↦ do t ← time_now ext; pause_at i w (some (wait_deadline t d))
      ]

  unfoldable pub execute_wait_step : StepInfo → M StepOutcome
  unfolding wait_configured
  execute_wait_step i = elim i.wait [
    | none ↦ return (failed_with (msg "wait step has no wait configuration"))
    | some w ↦ do e ← wait_configured i w; return (failed_with e)
  ]

  -- The tests of `resolveItemsCollection` on a text of the form "{{name}}".
  unfoldable pub is_reference : String → Bool
  is_reference items =
      ltb 4 (String.len items)
      && ((String.slice items 0 2 == "{{")
          && (String.slice items (String.len items - 2) (String.len items) == "}}"))

  abbrev pub referred_name : String → String
  referred_name items = String.slice items 2 (String.len items - 2)

  unfoldable pub collection : String → Value → Result (List Value)
  collection name null = err (msg (concat ("variable " ∷ name ∷ " not found in context" ∷ [])))
  collection name (list items) = ok (item_values items)
  collection name (objects ms) = ok (object_values ms)
  collection name v = err (
      msg
        (concat ("variable " ∷ name ∷ " is not a collection (type: " ∷ go.type_name v ∷ ")" ∷ [])))

  unfoldable pub resolve_items_collection : String → Fields → Result (List Value)
  unfolding is_reference collection
  resolve_items_collection items context =
      if is_reference items
      then collection (referred_name items) (ext.resolve_variable (referred_name items) context)
      else err (msg "items must be a variable reference like {{variable}}")

  unfoldable pub item_context : String → ℕ → Value → Fields → Fields
  unfolding put
  item_context item_var index item context =
      put "_index" (int (pos index)) (put item_var item context)

  -- The loop over the items; `each` runs all the steps for one item, and gives the ID of the step
  -- that failed with its error.
  unfoldable pub for_items :
      (Fields → M (Option (String × Err))) → String → ℕ → List Value → Fields → M (Option Err)
  unfolding item_context
  for_items each item_var index [] context = return none
  for_items each item_var index (item ∷ rest) context = do
    failure ← each (item_context item_var index item context)
    elim failure [
      | none ↦ for_items each item_var (suc index) rest context
      | some (id, e) ↦ return (
          some (
            wrap (concat ("foreach iteration " ∷ number index ∷ ", step " ∷ id ∷ " failed" ∷ []))
              e))
    ]

  abbrev pub over_items :
      (Fields → M (Option (String × Err))) → String → Fields → Result (List Value) → M (Option Err)
  over_items each item_var context (err e) =
      return (some (wrap "failed to resolve items collection" e))
  over_items each item_var context (ok items) = for_items each item_var 0 items context
