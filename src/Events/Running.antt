-- ===== src/Events/Running.antt =====
-- Running a workflow for an event or by hand (`safeExecuteWorkflow` and `TriggerWorkflowManually` of
-- internal/engine/event_router.go), in the world of the executor. The stack and the value of a panic
-- are parameters.
use intelligent_workflows.Prelude.{
  ℕ, suc, String, Option, none, Err, Bool, true, false, ◌≡◌, refl, [], ◌∷◌, some, msg, wrap, concat,
  Result, ok, err,
}
use intelligent_workflows.Value.{bool, string, Fields, empty, put, get, Go}
use intelligent_workflows.Models.Workflow.{Workflow}
use intelligent_workflows.Models.Execution.{failed, WorkflowExecution}
use intelligent_workflows.Executor.State.{
  Ext, World, M, ◌>>=◌, return, ask, Context, time_now, kept,
}
use intelligent_workflows.Executor.Resume.{Outcome, refused, ended, panicked, out_of_steps}
use intelligent_workflows.Executor.Resume.Ending.{EndedAs}
use intelligent_workflows.Executor.Start.{execute, execute-EndedAs, new_execution}

-- The record that stands for a panic: a new one, not that of the execution that panicked.
abbrev pub panic_record :
    ℕ → Workflow → String → String → String → ℕ → String → ℕ → WorkflowExecution
panic_record organization w event text stack id short now =
    record (new_execution organization w event empty id (concat ("exec_panic_" ∷ short ∷ [])) now) {
      status = failed;
      completed_at = some now;
      error_message = some (concat ("panic during execution: " ∷ text ∷ []));
      metadata = put "panic_recovered" (bool true) (put "stack_trace" (string stack) empty);
    }

module _ (go : Go) (ext : Ext) (text stack : String) where
  -- `executionRepo.CreateExecution` with a record of its own; the execution that panicked, which the
  -- executor has, is left as it is.
  abbrev pub insert_execution : WorkflowExecution → M (Option Err)
  insert_execution e v =
      let failure = ext.create_execution v.calls e in
      (failure, record v { calls = suc v.calls; saved = kept failure e v.saved })

  -- What the deferred function does.
  unfoldable pub recovered : ℕ → Workflow → String → Outcome → M Outcome
  unfolding time_now
  recovered organization w event panicked = do
    now ← time_now ext
    id ← ask ext.new_id
    short ← ask ext.new_id
    _ ← insert_execution (panic_record organization w event text stack id (ext.short_id short) now)
    return panicked
  recovered organization w event r = return r

  unfoldable pub safe_execute_workflow : ℕ → Context → ℕ → Workflow → String → Fields → M Outcome
  unfolding recovered
  safe_execute_workflow fuel ctx organization w event payload = do
    r ← execute go ext fuel ctx organization w event payload
    recovered organization w event r

  -- What `TriggerWorkflowManually` returns after the run.
  abbrev pub triggered : Outcome → Outcome
  triggered (refused e) = refused (wrap "workflow execution failed" e)
  triggered (ended (some e)) = ended (some (wrap "workflow execution failed" e))
  triggered r = r

  unfoldable pub trigger_enabled : Bool → ℕ → Context → ℕ → Workflow → Fields → M Outcome
  trigger_enabled false fuel ctx organization w payload =
      return (refused (msg (concat ("workflow is disabled: " ∷ w.name ∷ []))))
  trigger_enabled true fuel ctx organization w payload = do
    r ← execute go ext fuel ctx organization w "manual" payload
    return (triggered r)

  unfoldable pub trigger_loaded : ℕ → Context → ℕ → Fields → Result Workflow → M Outcome
  unfolding trigger_enabled
  trigger_loaded fuel ctx organization payload (err e) =
      return (refused (wrap "failed to get workflow" e))
  trigger_loaded fuel ctx organization payload (ok w) =
      trigger_enabled w.enabled fuel ctx organization w payload

  unfoldable pub trigger_workflow_manually : ℕ → Context → ℕ → ℕ → Fields → M Outcome
  unfolding trigger_loaded
  trigger_workflow_manually fuel ctx organization id payload = do
    loaded ← ask (λ n. ext.get_workflow_by_id n organization id)
    trigger_loaded fuel ctx organization payload loaded

  -- A record of the panic: of the given workflow, failed at once, with the text of the panic.
  abbrev pub IsPanicRecord : ℕ → Workflow → String → ℕ → WorkflowExecution → Type 0
  IsPanicRecord organization w event t e =
      (e.organization_id ≡ organization)
      × (e.workflow_id ≡ w.id)
      × (e.trigger_event ≡ event)
      × (e.status ≡ failed)
      × (e.started_at ≡ t)
      × (e.completed_at ≡ some t)
      × (e.error_message ≡ some (concat ("panic during execution: " ∷ text ∷ [])))
      × (get "stack_trace" e.metadata ≡ some (string stack))

  -- What is written, unless the repository answers with an error.
  abbrev pub IsWritten : Option Err → WorkflowExecution → World → World → Type 0
  IsWritten none e before after = after.saved ≡ e ∷ before.saved
  IsWritten (some x) e before after = after.saved ≡ before.saved

  -- How the deferred function leaves the world, where the executor has left it as `before`: a panic is
  -- recorded, at the time of the first call, by the fourth; anything else changes nothing.
  abbrev pub ContainedAs : ℕ → Workflow → String → Outcome → World → Outcome → World → Type 0
  ContainedAs organization w event panicked before r' after =
      (e : WorkflowExecution) × (r' ≡ panicked)
      × (after.execution ≡ before.execution)
      × IsPanicRecord organization w event (ext.now before.calls) e
      × IsWritten (ext.create_execution (suc (suc (suc before.calls))) e) e before after
  ContainedAs organization w event r before r' after =
      (r' ≡ r) × (after ≡ before) × EndedAs r before.execution

  IsWritten-kept :
      (failure : Option Err) (e : WorkflowExecution) (before after : World)
      → after.saved ≡ kept failure e before.saved
      → IsWritten failure e before after
  IsWritten-kept none e before after h = h
  IsWritten-kept (some x) e before after h = h

  ContainedAs-recovered :
      (organization : ℕ) (w : Workflow) (event : String) (r : Outcome) (v : World)
      → EndedAs r v.execution
      → ContainedAs organization w event r v
          (recovered organization w event r v).0
          (recovered organization w event r v).1
  unfolding recovered time_now put get
  ContainedAs-recovered organization w event panicked v h =
      let n = v.calls in
      let e =
        panic_record organization w event text stack (ext.new_id (suc n))
          (ext.short_id (ext.new_id (suc (suc n)))) (ext.now n) in
      (
        e,
        refl,
        refl,
        (refl, refl, refl, refl, refl, refl, refl, refl),
        IsWritten-kept (ext.create_execution (suc (suc (suc n))) e) e v
            (recovered organization w event panicked v).1 refl,
      )
  ContainedAs-recovered organization w event (refused e) v h = (refl, refl, h)
  ContainedAs-recovered organization w event (ended x) v h = (refl, refl, h)
  ContainedAs-recovered organization w event out_of_steps v h = (refl, refl, h)

-- A workflow that is started by an event. Where its run does not panic, the outcome and the world are
-- those that the executor leaves; where it ends, the execution is completed with a result, or failed
-- with a message. Where its run panics, whatever the reason, a new record, of a failed execution of the
-- workflow with the text and the stack of the panic, is written after all that the run has written,
-- unless the repository refuses it; the execution that panicked stays as it was at the panic.
pub safe_execute_workflow-ContainedAs :
    (go : Go) (ext : Ext) (text stack : String) (fuel : ℕ) (ctx : Context) (organization : ℕ)
    (w : Workflow) (event : String) (payload : Fields) (v : World)
    → let (r, before) = execute go ext fuel ctx organization w event payload v in
      let (r', after) =
        safe_execute_workflow go ext text stack fuel ctx organization w event payload v in
      ContainedAs go ext text stack organization w event r before r' after
unfolding safe_execute_workflow
safe_execute_workflow-ContainedAs go ext text stack fuel ctx organization w event payload v =
    ContainedAs-recovered go ext text stack organization w event _ _
      (execute-EndedAs go ext fuel ctx organization w event payload v)
