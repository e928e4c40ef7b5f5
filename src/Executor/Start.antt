-- ===== src/Executor/Start.antt =====
-- Starting an execution (`Execute` of internal/engine/executor.go).
use intelligent_workflows.Prelude.{
  ℕ, suc, ◌+◌, String, [], ◌∷◌, Option, none, some, Err, wrap, error_text, concat, Result, ok, err,
}
use intelligent_workflows.Value.{ℤ, pos, negsuc, float64, Fields, empty, put, Go}
use intelligent_workflows.Models.Workflow.{Workflow}
use intelligent_workflows.Models.Execution.{running, result_failed, WorkflowExecution}
use intelligent_workflows.Executor.State.{
  Ext, World, M, ◌>>=◌, ◌>>◌, return, ask, get_execution, set_execution, Context, time_now,
  create_execution, broadcast_execution_event,
}
use intelligent_workflows.Executor.Policy.{get_workflow_timeout}
use intelligent_workflows.Executor.Run.{complete_execution, run_execution}
use intelligent_workflows.Executor.Retry.{with_deadline}
use intelligent_workflows.Executor.Run.Pausing.{
  append-ne-nil, complete_execution-failed, run_execution-HasEnded,
}
use intelligent_workflows.Executor.Resume.{Outcome, refused, ended, panicked, outcome_of}
use intelligent_workflows.Executor.Resume.Ending.{EndedAs, EndedAs-outcome_of}

-- A timeout that is not positive sets no deadline.
abbrev pub deadline_of : Context → ℕ → ℤ → Context
deadline_of ctx t (pos (suc d)) = with_deadline ctx (t + suc d)
deadline_of ctx t _ = ctx

abbrev pub new_execution : ℕ → Workflow → String → Fields → ℕ → String → ℕ → WorkflowExecution
new_execution organization w event payload id execution_id t = record {
  id = id;
  organization_id = organization;
  workflow_id = w.id;
  execution_id = execution_id;
  trigger_event = event;
  trigger_payload = payload;
  context = none;
  status = running;
  result = none;
  current_step_id = none;
  wait_state = none;
  started_at = t;
  completed_at = none;
  duration_ms = none;
  error_message = none;
  metadata = empty;
  timeout_at = none;
  timeout_duration = none;
  paused_at = none;
  paused_reason = none;
  paused_step_id = none;
  next_step_id = none;
  resume_data = none;
  resume_count = 0;
  last_resumed_at = none;
}

abbrev pub natural : ℤ → ℕ
natural (pos n) = n
natural (negsuc n) = 0

module _ (go : Go) (ext : Ext) where
  -- The timeout fields of the record.
  abbrev pub with_timeout : ℤ → WorkflowExecution → WorkflowExecution
  with_timeout (pos (suc d)) e = record e {
    timeout_at = some (e.started_at + suc d);
    timeout_duration = some (natural (go.int64_of_float (go.seconds_of (pos (suc d)))));
    metadata = put "timeout_seconds" (float64 (go.seconds_of (pos (suc d)))) e.metadata;
  }
  with_timeout _ e = e

  -- What follows the enrichment of the context.
  unfoldable pub execute_enriched : ℕ → Workflow → Context → Option Fields → M Outcome
  unfolding run_execution get_workflow_timeout
  execute_enriched fuel w ctx none = return panicked
  execute_enriched fuel w ctx (some context) = do
    e ← get_execution
    set_execution (record e { context = some context })
    r ← run_execution go ext fuel (go.duration_text (get_workflow_timeout go w)) w ctx context
    return (outcome_of r)

  unfoldable pub execute_built : ℕ → Workflow → Context → Result Fields → M Outcome
  unfolding complete_execution execute_enriched error_text
  execute_built fuel w ctx (err x) = do
    complete_execution go ext result_failed (concat ("Context build failed: " ∷ error_text x ∷ []))
    return (ended (some x))
  execute_built fuel w ctx (ok context) = do
    enriched ← ask (λ n. ext.enrich_context n context)
    execute_enriched fuel w ctx enriched

  -- What follows the creation of the record, which may fail.
  unfoldable pub execute_created : ℕ → Workflow → Context → Fields → Option Err → M Outcome
  unfolding broadcast_execution_event execute_built
  execute_created fuel w ctx payload (some x) =
      return (refused (wrap "failed to create execution" x))
  execute_created fuel w ctx payload none = do
    broadcast_execution_event
    built ← ask (λ n. ext.build_context n w payload)
    execute_built fuel w ctx built

  unfoldable pub execute : ℕ → Context → ℕ → Workflow → String → Fields → M Outcome
  unfolding time_now create_execution execute_created get_workflow_timeout
  execute fuel ctx organization w event payload = do
    now ← time_now ext
    id ← ask ext.new_id
    short ← ask ext.new_id
    t ← time_now ext
    set_execution (
        with_timeout (get_workflow_timeout go w) (
          new_execution organization w event payload id (concat ("exec_" ∷ ext.short_id short ∷ []))
            t))
    failure ← create_execution ext
    execute_created fuel w (deadline_of ctx now (get_workflow_timeout go w)) payload failure

  EndedAs-execute_enriched :
      (fuel : ℕ) (flow : Workflow) (ctx : Context) (context : Option Fields) (w : World)
      → EndedAs
          (execute_enriched fuel flow ctx context w).0
          (execute_enriched fuel flow ctx context w).1.execution
  unfolding execute_enriched
  EndedAs-execute_enriched fuel flow ctx none w = tt
  EndedAs-execute_enriched fuel flow ctx (some context) w = EndedAs-outcome_of _ _ (
      run_execution-HasEnded go ext fuel (go.duration_text (get_workflow_timeout go flow)) flow ctx
        context (record w { execution = record w.execution { context = some context } }))

  EndedAs-execute_built :
      (fuel : ℕ) (flow : Workflow) (ctx : Context) (built : Result Fields) (w : World)
      → EndedAs
          (execute_built fuel flow ctx built w).0
          (execute_built fuel flow ctx built w).1.execution
  unfolding execute_built
  EndedAs-execute_built fuel flow ctx (err x) w =
      complete_execution-failed go ext _ w (append-ne-nil "Context build failed: " _ (λ p. cc)) x
  EndedAs-execute_built fuel flow ctx (ok context) w =
      EndedAs-execute_enriched fuel flow ctx (ext.enrich_context w.calls context)
        (record w { calls = suc w.calls })

  EndedAs-execute_created :
      (fuel : ℕ) (flow : Workflow) (ctx : Context) (payload : Fields) (failure : Option Err)
      (w : World)
      → EndedAs
          (execute_created fuel flow ctx payload failure w).0
          (execute_created fuel flow ctx payload failure w).1.execution
  unfolding execute_created
  EndedAs-execute_created fuel flow ctx payload (some x) w = tt
  EndedAs-execute_created fuel flow ctx payload none w =
      let v = (broadcast_execution_event w).1 in
      EndedAs-execute_built fuel flow ctx (ext.build_context v.calls flow payload)
        (record v { calls = suc v.calls })

-- Whatever its steps are, and however the calls outside of the engine answer, an execution that
-- `Execute` runs to an end is left either completed, with a result and no error returned, or failed,
-- with the result `failed`, a message that is not empty and an error returned: never waiting or
-- paused.
pub execute-EndedAs :
    (go : Go) (ext : Ext) (fuel : ℕ) (ctx : Context) (organization : ℕ) (flow : Workflow)
    (event : String) (payload : Fields) (w : World)
    → EndedAs
        (execute go ext fuel ctx organization flow event payload w).0
        (execute go ext fuel ctx organization flow event payload w).1.execution
unfolding execute
execute-EndedAs go ext fuel ctx organization flow event payload w =
    EndedAs-execute_created go ext fuel flow _ payload _ _
