-- ===== src/Executor/Steps/Dispatch.antt =====
-- `executeStep` and the steps that contain steps, `executeParallelStep` and `executeForEachStep`
-- (internal/engine/executor.go). The recursion is on the step.
use intelligent_workflows.Prelude.{
  ℕ, ◌-◌, ◌/◌, String, List, [], ◌∷◌, Option, none, some, ◌==◌, if◌then◌else◌, Err, msg, wrap,
  error_text, concat,
}
use intelligent_workflows.Value.{bool, string, object, Fields, empty, field, Go}
use intelligent_workflows.Models.Workflow.{
  StepInfo, Step, step, ParallelStep, no_parallel, parallel, ForEachStep, no_foreach, foreach,
  Steps, no_steps, more_steps, info,
}
use intelligent_workflows.Models.Execution.{
  step_running, step_completed, step_failed, StepExecution, WorkflowExecution,
}
use intelligent_workflows.Executor.State.{
  Ext, M, ◌>>=◌, return, ask, get_execution, Context, time_now, create_step_execution,
  update_step_execution,
}
use intelligent_workflows.Executor.Actions.{ActionResult}
use intelligent_workflows.Executor.Steps.{
  StepOutcome, failed_with, parallel_outcome, execute_condition_step, execute_action_step,
  execute_execute_step, execute_wait_step, resolve_items_collection, over_items, no_sub_steps,
  number,
}

abbrev pub output_of : ActionResult → Fields
output_of r = field "action" (string r.action) (
    field "success" (bool r.success)
      (field "reason" (string r.reason) (field "data" (object r.payload) empty)))

abbrev pub output_field : Option ActionResult → Option Fields
output_field none = none
output_field (some r) = some (output_of r)

-- The record that `executeStep` creates, with the ID and the time that it gets.
abbrev pub started_record : StepInfo → WorkflowExecution → Fields → ℕ → ℕ → StepExecution
started_record i e context id t = record {
  id = id;
  organization_id = e.organization_id;
  execution_id = e.id;
  step_id = i.id;
  step_type = i.type;
  status = step_running;
  input = context;
  output = none;
  started_at = t;
  completed_at = none;
  duration_ms = none;
  error_message = none;
}

abbrev pub ended_record : StepExecution → ℕ → StepOutcome → Option Err → StepExecution
ended_record s t o none = record s {
  completed_at = some t;
  duration_ms = some ((t - s.started_at) / 1000000);
  status = step_completed;
  output = output_field o.result;
}
ended_record s t o (some e) = record s {
  completed_at = some t;
  duration_ms = some ((t - s.started_at) / 1000000);
  status = step_failed;
  error_message = some (error_text e);
}

abbrev pub and_next : String → Option Err → StepOutcome
and_next next e = record { next = next; result = none; error = e }

module _ (go : Go) (ext : Ext) where
  -- The early return where the record of the step cannot be created.
  unfoldable pub if_created : Option Err → M StepOutcome → M StepOutcome
  if_created (some x) rest = return (failed_with (wrap "failed to create step execution" x))
  if_created none rest = rest

  unfoldable pub run_and_update : StepExecution → M StepOutcome → M StepOutcome
  unfolding time_now update_step_execution error_text
  run_and_update s body = do
    o ← body
    t ← time_now ext
    ignored ← update_step_execution ext (ended_record s t o o.error)
    return o

  -- What `executeStep` does around the `switch`, which is `body`.
  unfoldable pub recorded : StepInfo → Fields → M StepOutcome → M StepOutcome
  unfolding time_now create_step_execution run_and_update if_created
  recorded i context body = do
    e ← get_execution
    id ← ask ext.new_id
    t ← time_now ext
    failure ← create_step_execution ext (started_record i e context id t)
    if_created failure (run_and_update (started_record i e context id t) body)

  -- The `switch` over the type; `run_parallel` and `run_foreach` are the calls for the two types
  -- with steps inside.
  unfoldable pub dispatch :
      StepInfo
      → (Context → Fields → M (Option Err))
      → (Context → Fields → M (Option Err))
      → Context
      → Fields
      → M StepOutcome
  unfolding execute_condition_step execute_action_step execute_execute_step execute_wait_step
  dispatch i run_parallel run_foreach ctx context =
      if i.type == "condition"
      then execute_condition_step go ext i context
      else if i.type == "action"
      then execute_action_step go ext i context
      else if i.type == "execute"
      then execute_execute_step go ext i context
      else if i.type == "parallel"
      then (do e ← run_parallel ctx context; return (and_next i.next e))
      else if i.type == "foreach"
      then (do e ← run_foreach ctx context; return (and_next i.next e))
      else if i.type == "wait"
      then execute_wait_step go ext i
      else return (failed_with (msg (concat ("unsupported step type: " ∷ i.type ∷ []))))

  -- The checks of `executeForEachStep`, and its loop.
  unfoldable pub iterate :
      String → String → Steps → (Fields → M (Option (String × Err))) → Fields → M (Option Err)
  unfolding resolve_items_collection
  iterate items item_var steps each context =
      if no_sub_steps steps
      then return (some (msg "foreach step has no steps defined"))
      else if items == ""
      then return (some (msg "foreach step has no items specified"))
      else if item_var == ""
      then return (some (msg "foreach step has no item_var specified"))
      else over_items go ext each item_var context (resolve_items_collection go ext items context)

  unfoldable pub conclude_parallel : String → Steps → M (List (Option Err)) → M (Option Err)
  unfolding parallel_outcome
  conclude_parallel strategy no_steps run = return (some (msg "parallel step has no steps defined"))
  conclude_parallel strategy (more_steps s ss) run = do
    results ← run
    return (parallel_outcome (number go ext) strategy results)

  unfoldable mutual
    unfolding recorded dispatch iterate conclude_parallel

    pub execute_step : Step → Context → Fields → M StepOutcome
    execute_step (step i p f) ctx context =
        recorded i context
          (dispatch i (execute_parallel_step p) (execute_foreach_step f) ctx context)

    pub execute_parallel_step : ParallelStep → Context → Fields → M (Option Err)
    execute_parallel_step no_parallel ctx context =
        return (some (msg "parallel step has no steps defined"))
    execute_parallel_step (parallel strategy steps) ctx context =
        conclude_parallel strategy steps (run_all steps ctx context)

    -- The goroutines.
    pub run_all : Steps → Context → Fields → M (List (Option Err))
    run_all no_steps ctx context = return []
    run_all (more_steps s ss) ctx context = do
      o ← execute_step s ctx context
      rest ← run_all ss ctx context
      return (o.error ∷ rest)

    pub execute_foreach_step : ForEachStep → Context → Fields → M (Option Err)
    execute_foreach_step no_foreach ctx context =
        return (some (msg "foreach step has no steps defined"))
    execute_foreach_step (foreach items item_var steps) ctx context =
        iterate items item_var steps (run_each steps ctx) context

    -- The inner loop of `executeForEachStep`.
    pub run_each : Steps → Context → Fields → M (Option (String × Err))
    run_each no_steps ctx context = return none
    run_each (more_steps s ss) ctx context = do
      o ← execute_step s ctx context
      elim o.error [ some e ↦ return (some ((info s).id, e)) | none ↦ run_each ss ctx context ]
