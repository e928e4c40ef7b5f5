-- ===== src/Executor/State.antt =====
-- The state of the executor (internal/engine/executor.go) and what it calls outside of the engine.
-- Outside calls are numbered by `calls`: their answers, and the time, may depend on that number in
-- any way. Logging and metrics are left out.
use intelligent_workflows.Prelude.{ℕ, suc, String, Bool, List, ◌∷◌, Option, none, some, Err, Result}
use intelligent_workflows.Value.{ℤ, Value, Fields}
use intelligent_workflows.Models.Workflow.{Rule, Workflow}
use intelligent_workflows.Models.Approval.{ApprovalRequest}
use intelligent_workflows.Models.Execution.{ExecutionStatus, WorkflowExecution, StepExecution}

-- `ctx.Err()`: nil, DeadlineExceeded or Canceled.
pub data CtxErr : Type 0 where
  alive deadline_exceeded canceled : CtxErr

-- A context, by the earliest deadline set on it and its parents.
abbrev pub Context : Type 0
Context = Option ℕ

-- A request, with the calls of Header.Set in their order.
pub record HttpRequest : Type 0 where
  pub method : String
  pub url : String
  pub body : Option String
  pub headers : List (String × String)

-- The arguments of `CreateApprovalRequest`; the requester is always nil.
pub record ApprovalCall : Type 0 where
  pub execution_id : ℕ
  pub entity_type : String
  pub entity_id : String
  pub approver_role : String
  pub reason : String
  pub expires_in : Option ℤ

pub record Ext : Type 0 where
  pub now : ℕ → ℕ  -- time.Now(), in nanoseconds
  pub new_id : ℕ → ℕ  -- uuid.New()
  pub id_text : ℕ → String  -- id.String()
  pub ctx_err : Context → ℕ → CtxErr
  pub update_execution : ℕ → WorkflowExecution → Option Err
  pub create_step_execution : ℕ → StepExecution → Option Err
  pub update_step_execution : ℕ → StepExecution → Option Err
  pub get_by_rule_id : Option (ℕ → ℕ → String → Result Rule)  -- nil without a rule service
  pub short_id : ℕ → String  -- uuid.New().String()[:8]
  pub create_execution : ℕ → WorkflowExecution → Option Err
  pub build_context : ℕ → Workflow → Fields → Result Fields  -- ContextBuilder.BuildContext
  pub enrich_context : ℕ → Fields → Option Fields  -- EnrichContext, which may panic
  pub get_execution_by_id : ℕ → ℕ → ℕ → Result WorkflowExecution  -- call, organization, ID
  pub get_workflow_by_id : ℕ → ℕ → ℕ → Result Workflow
  pub parse_id : String → Option ℕ  -- uuid.MustParse, which panics where there is none
  pub reload_context : ℕ → Workflow → Option Fields → Option (Option Fields)  -- BuildContextFromExisting and EnrichContext, which may panic
  pub resolve_variable : String → Fields → Value  -- Evaluator.ResolveVariable, not in the repository
  pub marshal : Fields → Result String  -- json.Marshal
  pub new_request : String → String → Option Err  -- http.NewRequestWithContext, of a method and URL
  pub http_do : ℕ → HttpRequest → Result (ℕ × Result String)  -- the status code, and the body if it can be read
  pub contains : String → String → Bool  -- strings.Contains
  pub replace_all : String → String → String → String  -- strings.ReplaceAll
  pub execution_context : ℕ → ℕ  -- the action executor's execution ID, which all executions share
  pub create_approval_request : Option (ℕ → ApprovalCall → Result ApprovalRequest)  -- nil without the service

-- `execution` is the object that all the functions share by a pointer.
pub record World : Type 0 where
  pub calls : ℕ
  pub execution : WorkflowExecution
  pub saved : List WorkflowExecution  -- the executions written to the repository, the last one first
  pub step_log : List StepExecution  -- the step executions written, the last one first
  pub slept : List ℤ  -- the durations passed to time.Sleep, the last one first
  pub broadcast : List ExecutionStatus  -- the states broadcast to the hub, the last one first

abbrev pub M : Type 0 → Type 0
M A = World → A × World

infixl 5 ◌>>=◌ ◌>>◌
abbrev pub ◌>>=◌ : {A B : Type 0} → M A → (A → M B) → M B
◌>>=◌ m f w = let (a, w') = m w in f a w'

abbrev pub ◌>>◌ : {B : Type 0} → M (Unit {0}) → M B → M B
m >> k = m >>= λ _. k

abbrev pub return : {A : Type 0} → A → M A
return a w = (a, w)

-- An outside call: `f` gets the number of the call.
abbrev pub ask : {A : Type 0} → (ℕ → A) → M A
ask f w = (f w.calls, record w { calls = suc w.calls })

abbrev pub get_execution : M WorkflowExecution
get_execution w = (w.execution, w)

abbrev pub set_execution : WorkflowExecution → M (Unit {0})
set_execution e w = (tt, record w { execution = e })

-- What a write leaves behind.
abbrev pub kept {ℓ} : {A : Type ℓ} → Option Err → A → List A → List A
kept none a log = a ∷ log
kept (some e) a log = log

module _ (ext : Ext) where
  unfoldable pub time_now : M ℕ
  time_now = ask ext.now

  -- `executionRepo.UpdateExecution(ctx, execution.OrganizationID, execution)`
  unfoldable pub update_execution : M (Option Err)
  update_execution w =
      let e = ext.update_execution w.calls w.execution in
      (e, record w { calls = suc w.calls; saved = kept e w.execution w.saved })

  unfoldable pub create_execution : M (Option Err)
  create_execution w =
      let e = ext.create_execution w.calls w.execution in
      (e, record w { calls = suc w.calls; saved = kept e w.execution w.saved })

  unfoldable pub create_step_execution : StepExecution → M (Option Err)
  create_step_execution s w =
      let e = ext.create_step_execution w.calls s in
      (e, record w { calls = suc w.calls; step_log = kept e s w.step_log })

  unfoldable pub update_step_execution : StepExecution → M (Option Err)
  update_step_execution s w =
      let e = ext.update_step_execution w.calls s in
      (e, record w { calls = suc w.calls; step_log = kept e s w.step_log })

unfoldable pub sleep : ℤ → M (Unit {0})
sleep d w = (tt, record w { calls = suc w.calls; slept = d ∷ w.slept })

-- `broadcastExecutionEvent`: the message type depends on the state; for the states `pending` and
-- `blocked` nothing is sent.
abbrev pub is_broadcast : ExecutionStatus → List ExecutionStatus → List ExecutionStatus
is_broadcast ExecutionStatus.pending log = log
is_broadcast ExecutionStatus.blocked log = log
is_broadcast s log = s ∷ log

unfoldable pub broadcast_execution_event : M (Unit {0})
broadcast_execution_event w =
    (tt, record w { broadcast = is_broadcast w.execution.status w.broadcast })
