-- ===== src/Models/Workflow.antt =====
-- Workflow definitions (internal/models/workflow.go) and rules (internal/models/rule.go).
-- Identifiers are numbers, and 0 is `uuid.Nil`. A pointer that may be nil is an `Option`; a type
-- that contains itself through a slice is a block of data types.
use intelligent_workflows.Prelude.{ℕ, String, Bool, List, [], ◌∷◌, Option}
use intelligent_workflows.Value.{ℤ, Value, Fields}

pub record TriggerDefinition : Type 0 where
  pub type : String
  pub event : String
  pub cron : String
  pub payload : Option Fields  -- Data

pub record Action : Type 0 where
  pub type : String
  pub reason : String
  pub metadata : Option Fields

pub record ExecuteAction : Type 0 where
  pub type : String
  pub recipients : List String
  pub message : String
  pub url : String
  pub method : String
  pub headers : List (String × String)
  pub body : Option Fields
  pub entity : String
  pub entity_id : String
  pub payload : Option Fields  -- Data

pub record WaitConfig : Type 0 where
  pub event : String
  pub timeout : String
  pub on_timeout : String

pub record RetryConfig : Type 0 where
  pub max_attempts : ℤ
  pub backoff : String
  pub retry_on : List String

mutual
  -- field, operator, value, and, or
  pub data Condition : Type 0 where
    condition : String → String → Value → Conditions → Conditions → Condition

  pub data Conditions : Type 0 where
    no_conditions : Conditions
    more_conditions : Condition → Conditions → Conditions

-- The fields of a step that contain no step.
pub record StepInfo : Type 0 where
  pub id : String
  pub type : String
  pub rule_id : String
  pub condition : Option Condition
  pub action : Option Action
  pub on_true : String
  pub on_false : String
  pub execute : List ExecuteAction
  pub wait : Option WaitConfig
  pub retry : Option RetryConfig
  pub timeout : String
  pub metadata : Option Fields
  pub next : String

mutual
  pub data Step : Type 0 where
    step : StepInfo → ParallelStep → ForEachStep → Step

  -- *ParallelStep: nil, or the strategy and the steps
  pub data ParallelStep : Type 0 where
    no_parallel : ParallelStep
    parallel : String → Steps → ParallelStep

  -- *ForEachStep: nil, or items, item_var and the steps
  pub data ForEachStep : Type 0 where
    no_foreach : ForEachStep
    foreach : String → String → Steps → ForEachStep

  pub data Steps : Type 0 where
    no_steps : Steps
    more_steps : Step → Steps → Steps

abbrev pub info : Step → StepInfo
info (step i p f) = i

abbrev pub step_list : Steps → List Step
step_list no_steps = []
step_list (more_steps s ss) = s ∷ step_list ss

pub record WorkflowDefinition : Type 0 where
  pub trigger : TriggerDefinition
  pub load : List String  -- Context.Load
  pub steps : List Step
  pub timeout : String

pub record Workflow : Type 0 where
  pub id : ℕ
  pub organization_id : ℕ
  pub workflow_id : String
  pub version : String
  pub name : String
  pub definition : WorkflowDefinition
  pub enabled : Bool

pub data RuleType : Type 0 where
  condition_rule validation_rule enrichment_rule : RuleType

pub record Rule : Type 0 where
  pub id : ℕ
  pub organization_id : ℕ
  pub rule_id : String
  pub rule_type : RuleType
  pub conditions : List Condition  -- Definition.Conditions
  pub enabled : Bool
