-- ===== src/Executor/Run/Pausing.antt =====
-- What becomes of an execution that is run or resumed (`Execute` and `ResumeExecution` of
-- internal/engine/executor.go).
use Prim.Native.String
use Prim.Native.String.append
use intelligent_workflows.Prelude.{
  ℕ, zero, suc, String, ◌≡◌, ◌≢◌, inl, inr, refl, false, List, [], ◌∷◌, Option, none, some, arith,
  Err, msg, wrap, error_text, Bool-cases, List-cases, lookup, ◌==◌, eq_iff,
}
use intelligent_workflows.Value.{Fields, Go}
use intelligent_workflows.Models.Workflow.{Step, info, Workflow}
use intelligent_workflows.Models.Execution.{
  completed, failed, ExecutionResult, result_failed, result_executed, WorkflowExecution,
}
use intelligent_workflows.Executor.State.{
  Ext, World, M, Context, CtxErr, alive, deadline_exceeded, canceled,
}
use intelligent_workflows.Executor.Steps.{StepOutcome}
use intelligent_workflows.Executor.Run.{
  RunResult, finished, out_of_fuel, steps_loop, step_ended, step_found, unless_stopped,
  execute_steps, continue_steps_from, poll_context, stopped, complete_execution, conclude,
  conclude_error, fail_execution, conclude_resumed, run_execution, run_resumed, is_paused, step_map,
}
use intelligent_workflows.Executor.Retry.{execute_step_with_retry}

-- The errors that the loop over steps makes itself.
abbrev pub IsPlain : Option Err → Type 0
IsPlain none = Unit
IsPlain (some e) = (is_paused e ≡ false) × (error_text e ≢ "")

abbrev pub PlainResult : RunResult → Type 0
PlainResult out_of_fuel = Unit
PlainResult (finished r e) = IsPlain e

pub append-ne-nil : (s t : String) → s ≢ "" → String.◌++◌ s t ≢ ""
append-ne-nil String.[] t h = absurd (h refl)
append-ne-nil (String.◌∷◌ c s) t h = λ e. cc (append.cons c s t)

wrap-IsPlain : (p : String) (e : Err) → p ≢ "" → IsPlain (some (wrap p e))
unfolding error_text
wrap-IsPlain p e h = (refl, append-ne-nil _ (error_text e) (append-ne-nil p ": " h))

pub msg-IsPlain : (s : String) → s ≢ "" → IsPlain (some (msg s))
unfolding error_text
msg-IsPlain s h = (refl, h)

stopped-IsPlain : (c : CtxErr) → IsPlain (stopped c)
unfolding error_text
stopped-IsPlain alive = tt
stopped-IsPlain deadline_exceeded = (refl, λ e. cc)
stopped-IsPlain canceled = (refl, λ e. cc)

module _ (go : Go) (ext : Ext) where
  step_ended-plain :
      (again : String → ExecutionResult → M RunResult)
      → ((id : String) (final : ExecutionResult) (w : World) → PlainResult (again id final w).0)
      → (s : Step) (final : ExecutionResult) (o : StepOutcome) (e : Option Err) (w : World)
      → PlainResult (step_ended go ext again s final o e w).0
  unfolding step_ended
  step_ended-plain again h s final o none w = h _ _ w
  step_ended-plain again h s final o (some e) w =
      wrap-IsPlain _ e (append-ne-nil "step " _ (λ e. cc))

  step_found-plain :
      (again : String → ExecutionResult → M RunResult)
      → ((id : String) (final : ExecutionResult) (w : World) → PlainResult (again id final w).0)
      → (ctx : Context) (context : Fields) (current : String) (final : ExecutionResult)
        (s : Option Step) (w : World)
      → PlainResult (step_found go ext again ctx context current final s w).0
  unfolding step_found
  step_found-plain again h ctx context current final none w =
      msg-IsPlain _ (append-ne-nil "step not found: " _ (λ e. cc))
  step_found-plain again h ctx context current final (some s) w =
      let (o, w') = execute_step_with_retry go ext s ctx context w in
      step_ended-plain again h s final o o.error w'

  unless_stopped-plain :
      (stop : Option Err) (rest : M RunResult)
      → IsPlain stop
      → ((w : World) → PlainResult (rest w).0)
      → (w : World) → PlainResult (unless_stopped go ext stop rest w).0
  unfolding unless_stopped
  unless_stopped-plain none rest h k w = k w
  unless_stopped-plain (some e) rest h k w = h

  -- The loop returns no bare `ErrExecutionPaused` and no error with an empty text.
  pub steps_loop-plain :
      (poll : M (Option Err))
      → ((w : World) → IsPlain (poll w).0)
      → (fuel : ℕ) (steps : List (String × Step)) (ctx : Context) (context : Fields)
        (current : String) (final : ExecutionResult) (w : World)
      → PlainResult (steps_loop go ext poll fuel steps ctx context current final w).0
  unfolding steps_loop
  steps_loop-plain poll h zero steps ctx context current final w =
      elim (Bool-cases (current == "")) [
        | inl e ↦ rw (e, steps_loop) tt
        | inr e ↦ rw (e, steps_loop) tt
      ]
  steps_loop-plain poll h (suc fuel) steps ctx context current final w =
      elim (Bool-cases (current == "")) [
        | inl e ↦ rw (e, steps_loop) tt
        | inr e ↦
            rw (e, steps_loop)
              (unless_stopped-plain (poll w).0 _ (h w)
                (λ w'.
                  step_found-plain (steps_loop go ext poll fuel steps ctx context)
                    (steps_loop-plain poll h fuel steps ctx context) ctx context current final
                    (lookup current steps) w')
                (poll w).1)
      ]

-- How an execution is left, by the error that is returned.
abbrev pub HasEnded : Option Err → WorkflowExecution → Type 0
HasEnded none e = (e.status ≡ completed) × ((r : ExecutionResult) × (e.result ≡ some r))
HasEnded (some x) e =
    (e.status ≡ failed)
    × (e.result ≡ some result_failed)
    × ((text : String) × (e.error_message ≡ some text) × (text ≢ ""))

-- The same for a run, which has no result where the fuel runs out.
abbrev pub HasEndedRun : Option (Option Err) → WorkflowExecution → Type 0
HasEndedRun none e = Unit
HasEndedRun (some x) e = HasEnded x e

module _ (go : Go) (ext : Ext) where
  pub complete_execution-failed :
      (text : String) (w : World)
      → text ≢ ""
      → (x : Err) → HasEnded (some x) (complete_execution go ext result_failed text w).1.execution
  unfolding complete_execution
  complete_execution-failed text w h x =
      let filled : (text == "") ≡ false = ground (arith, eq_iff text "") in
      (rw filled refl, rw filled refl, (text, rw filled refl, h))

  complete_execution-completed :
      (result : ExecutionResult) (w : World)
      → HasEnded none (complete_execution go ext result "" w).1.execution
  unfolding complete_execution
  complete_execution-completed result w = (refl, (result, refl))

  pub ended-conclude :
      (on_error : Err → M (Option Err))
      → ((e : Err) (w : World)
          → IsPlain (some e)
          → HasEnded (on_error e w).0 (on_error e w).1.execution)
      → (r : RunResult) (w : World) → PlainResult r
      → HasEndedRun (conclude go ext on_error r w).0 (conclude go ext on_error r w).1.execution
  unfolding conclude
  ended-conclude on_error h out_of_fuel w plain = tt
  ended-conclude on_error h (finished result none) w plain = complete_execution-completed result w
  ended-conclude on_error h (finished result (some e)) w plain = h e w plain

  ended-fail_execution :
      (text : String) (e : Err) (c : CtxErr) (w : World)
      → IsPlain (some e)
      → HasEnded (fail_execution go ext text e c w).0 (fail_execution go ext text e c w).1.execution
  unfolding fail_execution
  ended-fail_execution text e deadline_exceeded w plain =
      complete_execution-failed _ w
        (append-ne-nil "Workflow execution timed out after " _ (λ e. cc)) e
  ended-fail_execution text e _ w plain = complete_execution-failed (error_text e) w plain.1 e

  ended-conclude_error :
      (text : String) (ctx : Context) (e : Err) (w : World)
      → IsPlain (some e)
      → HasEnded
          (conclude_error go ext text ctx e w).0
          (conclude_error go ext text ctx e w).1.execution
  unfolding conclude_error
  ended-conclude_error text ctx e w plain =
      rw (plain.0, conclude_error) (ended-fail_execution text e _ _ plain)

  ended-conclude_resumed :
      (e : Err) (w : World)
      → IsPlain (some e)
      → HasEnded (conclude_resumed go ext e w).0 (conclude_resumed go ext e w).1.execution
  unfolding conclude_resumed
  ended-conclude_resumed e w plain =
      rw (plain.0, conclude_resumed) (complete_execution-failed (error_text e) w plain.1 e)

  poll_context-IsPlain : (ctx : Context) (w : World) → IsPlain (poll_context go ext ctx w).0
  unfolding poll_context
  poll_context-IsPlain ctx w = stopped-IsPlain (ext.ctx_err ctx w.calls)

  execute_steps-plain :
      (fuel : ℕ) (flow : Workflow) (ctx : Context) (context : Fields) (w : World)
      → PlainResult (execute_steps go ext fuel flow ctx context w).0
  unfolding execute_steps
  execute_steps-plain fuel flow ctx context w = elim (List-cases flow.definition.steps) [
    | inl e ↦ rw (e, execute_steps) tt
    | inr (s, ss, e) ↦
        rw (e, execute_steps)
          (steps_loop-plain go ext (poll_context go ext ctx) (poll_context-IsPlain ctx) fuel
            (step_map (s ∷ ss) []) ctx context (info s).id result_executed w)
  ]

-- Whatever its steps are, and however the calls outside of the engine answer, an execution that is
-- run by `Execute` and ends is left either completed, with a result and no error returned, or failed,
-- with the result `failed`, a message that is not empty and an error returned: never waiting or
-- paused.
pub run_execution-HasEnded :
    (go : Go) (ext : Ext) (fuel : ℕ) (text : String) (flow : Workflow) (ctx : Context)
    (context : Fields) (w : World)
    → HasEndedRun
        (run_execution go ext fuel text flow ctx context w).0
        (run_execution go ext fuel text flow ctx context w).1.execution
unfolding run_execution
run_execution-HasEnded go ext fuel text flow ctx context w =
    ended-conclude go ext (conclude_error go ext text ctx) (ended-conclude_error go ext text ctx) _
      _ (execute_steps-plain go ext fuel flow ctx context w)

-- An execution that is continued after a wait and ends is left either completed, with a result and no
-- error returned, or failed, with the result `failed`, a message that is not empty and an error
-- returned.
pub run_resumed-HasEnded :
    (go : Go) (ext : Ext) (fuel : ℕ) (flow : Workflow) (ctx : Context) (context : Fields)
    (start : String) (w : World)
    → HasEndedRun
        (run_resumed go ext fuel flow ctx context start w).0
        (run_resumed go ext fuel flow ctx context start w).1.execution
unfolding run_resumed continue_steps_from
run_resumed-HasEnded go ext fuel flow ctx context start w =
    ended-conclude go ext (conclude_resumed go ext) (ended-conclude_resumed go ext) _ _ (
      steps_loop-plain go ext (λ v. (none, v)) (λ v. tt) fuel (step_map flow.definition.steps [])
        ctx context start result_executed w)
