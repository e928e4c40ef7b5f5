-- ===== src/Executor/Run.antt =====
-- The loops over the steps of a workflow and the outcome of an execution (`executeSteps`,
-- `continueStepsFrom`, `continueFromStep`, `completeExecution` and the end of `Execute` in
-- internal/engine/executor.go). A loop over steps takes fuel, since references may go round in a
-- circle.
pub mod Pausing
pub mod Next
pub mod Termination
use intelligent_workflows.Prelude.{
  ℕ, zero, suc, ◌-◌, ◌/◌, String, Bool, true, false, not, List, [], ◌∷◌, Option, none, some, ◌==◌,
  if◌then◌else◌, Err, msg, wrap, paused, error_text, concat, lookup, insert,
}
use intelligent_workflows.Value.{Fields, Go}
use intelligent_workflows.Models.Workflow.{Step, info, Workflow}
use intelligent_workflows.Models.Execution.{
  completed, failed, ExecutionResult, result_allowed, result_blocked, result_executed,
  result_failed, WorkflowExecution,
}
use intelligent_workflows.Executor.State.{
  ◌>>=◌, ◌>>◌, Ext, M, return, ask, get_execution, set_execution, CtxErr, alive, deadline_exceeded,
  canceled, Context, time_now, update_execution, broadcast_execution_event,
}
use intelligent_workflows.Executor.Actions.{ActionResult}
use intelligent_workflows.Executor.Steps.{StepOutcome}
use intelligent_workflows.Executor.Retry.{deadline_error, execute_step_with_retry}

-- What the loop over the steps returns; `out_of_fuel` is not an outcome of the program.
pub data RunResult : Type 0 where
  finished : ExecutionResult → Option Err → RunResult
  out_of_fuel : RunResult

-- The map from IDs to steps; a step replaces an earlier one with its ID.
unfoldable pub step_map : List Step → List (String × Step) → List (String × Step)
unfolding insert
step_map [] m = m
step_map (s ∷ ss) m = step_map ss (insert (info s).id s m)

abbrev pub action_result : String → ExecutionResult → ExecutionResult
action_result action final =
    if action == "block"
    then result_blocked
    else if action == "allow"
    then result_allowed
    else final

abbrev pub final_result : Option ActionResult → ExecutionResult → ExecutionResult
final_result none final = final
final_result (some r) final = action_result r.action final

abbrev pub stopped : CtxErr → Option Err
stopped alive = none
stopped deadline_exceeded = some (msg "workflow execution timed out")
stopped canceled = some (msg "context canceled")

abbrev pub completed_record : ExecutionResult → String → ℕ → WorkflowExecution → WorkflowExecution
completed_record result error_msg t e =
    if error_msg == ""
    then record e {
      completed_at = some t;
      duration_ms = some ((t - e.started_at) / 1000000);
      result = some result;
      status = completed;
    }
    else record e {
      completed_at = some t;
      duration_ms = some ((t - e.started_at) / 1000000);
      result = some result;
      status = failed;
      error_message = some error_msg;
    }

-- `err == ErrExecutionPaused`: the error itself, not one that wraps it.
abbrev pub is_paused : Err → Bool
is_paused paused = true
is_paused _ = false

module _ (go : Go) (ext : Ext) where
  -- The `select` on `ctx.Done()` of `executeSteps`.
  unfoldable pub poll_context : Context → M (Option Err)
  poll_context ctx = do c ← ask (ext.ctx_err ctx); return (stopped c)

  -- What follows a step with the given error; `again` is the rest of the loop.
  unfoldable pub step_ended :
      (String → ExecutionResult → M RunResult)
      → Step
      → ExecutionResult
      → StepOutcome
      → Option Err
      → M RunResult
  step_ended again s final o (some e) =
      return
        (finished result_failed (some (wrap (concat ("step " ∷ (info s).id ∷ " failed" ∷ [])) e)))
  step_ended again s final o none = again o.next (final_result o.result final)

  unfoldable pub step_found :
      (String → ExecutionResult → M RunResult)
      → Context
      → Fields
      → String
      → ExecutionResult
      → Option Step
      → M RunResult
  unfolding execute_step_with_retry step_ended
  step_found again ctx context current final none =
      return (finished result_failed (some (msg (concat ("step not found: " ∷ current ∷ [])))))
  step_found again ctx context current final (some s) = do
    o ← execute_step_with_retry go ext s ctx context
    step_ended again s final o o.error

  unfoldable pub unless_stopped : Option Err → M RunResult → M RunResult
  unless_stopped (some e) rest = return (finished result_failed (some e))
  unless_stopped none rest = rest

  -- A loop over the steps from the ID `current` on; `poll` is what it does before each step.
  unfoldable pub steps_loop :
      M (Option Err)
      → ℕ
      → List (String × Step)
      → Context
      → Fields
      → String
      → ExecutionResult
      → M RunResult
  unfolding lookup step_found unless_stopped
  steps_loop poll zero steps ctx context current final =
      return (if current == "" then finished final none else out_of_fuel)
  steps_loop poll (suc fuel) steps ctx context current final = elim (current == "") [
    | true ↦ return (finished final none)
    | false ↦ do
      stop ← poll
      unless_stopped stop (
          step_found (steps_loop poll fuel steps ctx context) ctx context current final
            (lookup current steps))
  ]

  unfoldable pub execute_steps : ℕ → Workflow → Context → Fields → M RunResult
  unfolding steps_loop poll_context step_map
  execute_steps fuel w ctx context = elim w.definition.steps [
    | [] ↦ return (finished result_executed none)
    | s ∷ ss ↦
        steps_loop (poll_context ctx) fuel (step_map (s ∷ ss) []) ctx context (info s).id
          result_executed
  ]

  -- The loop after a wait: it does not look at the context.
  unfoldable pub continue_steps_from : ℕ → Workflow → Context → Fields → String → M RunResult
  unfolding steps_loop step_map
  continue_steps_from fuel w ctx context start =
      steps_loop (return none) fuel (step_map w.definition.steps []) ctx context start
        result_executed

  -- The loop after a pause: the first step must exist.
  unfoldable pub continue_from_step : ℕ → Workflow → Context → Fields → String → M RunResult
  unfolding steps_loop step_map
  continue_from_step fuel w ctx context start =
      if start == ""
      then return (finished result_executed none)
      else elim (lookup start (step_map w.definition.steps [])) [
        | none ↦
            return
              (finished result_failed (some (msg (concat ("start step not found: " ∷ start ∷ [])))))
        | some s ↦
            steps_loop (return none) fuel (step_map w.definition.steps []) ctx context start
              result_executed
      ]

  unfoldable pub complete_execution : ExecutionResult → String → M (Unit {0})
  unfolding time_now update_execution broadcast_execution_event
  complete_execution result error_msg = do
    t ← time_now ext
    e ← get_execution
    set_execution (completed_record result error_msg t e)
    ignored ← update_execution ext
    broadcast_execution_event

  -- `Execute` tells a timeout of the context from another error.
  unfoldable pub fail_execution : String → Err → CtxErr → M (Option Err)
  unfolding complete_execution error_text
  fail_execution timeout_text e deadline_exceeded = do
    complete_execution result_failed
        (concat ("Workflow execution timed out after " ∷ timeout_text ∷ []))
    return (
        some (
          wrap (concat ("Workflow execution timed out after " ∷ timeout_text ∷ [])) deadline_error))
  fail_execution timeout_text e _ = do
    complete_execution result_failed (error_text e)
    return (some e)

  -- What `Execute` does with an error of `executeSteps`; the result is the error that it returns.
  unfoldable pub conclude_error : String → Context → Err → M (Option Err)
  unfolding fail_execution
  conclude_error timeout_text ctx e = elim (is_paused e) [
    | true ↦ return none
    | false ↦ do c ← ask (ext.ctx_err ctx); fail_execution timeout_text e c
  ]

  -- What `ResumeExecution` does with an error of `continueStepsFrom`.
  unfoldable pub conclude_resumed : Err → M (Option Err)
  unfolding complete_execution error_text
  conclude_resumed e = elim (is_paused e) [
    | true ↦ return none
    | false ↦ do complete_execution result_failed (error_text e); return (some e)
  ]

  -- The outcome of an execution: its error, or `none` if the fuel ran out.
  unfoldable pub conclude : (Err → M (Option Err)) → RunResult → M (Option (Option Err))
  unfolding complete_execution
  conclude on_error out_of_fuel = return none
  conclude on_error (finished result none) = do complete_execution result ""; return (some none)
  conclude on_error (finished result (some e)) = do x ← on_error e; return (some x)

  -- `Execute` from the call of `executeSteps` on.
  unfoldable pub run_execution : ℕ → String → Workflow → Context → Fields → M (Option (Option Err))
  unfolding execute_steps conclude_error conclude
  run_execution fuel timeout_text w ctx context = do
    r ← execute_steps fuel w ctx context
    conclude (conclude_error timeout_text ctx) r

  -- `ResumeExecution` from the call of `continueStepsFrom` on.
  unfoldable pub run_resumed : ℕ → Workflow → Context → Fields → String → M (Option (Option Err))
  unfolding continue_steps_from conclude_resumed conclude
  run_resumed fuel w ctx context start = do
    r ← continue_steps_from fuel w ctx context start
    conclude conclude_resumed r
