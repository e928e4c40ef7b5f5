-- ===== src/Executor/Resume/Ending.antt =====
-- What becomes of an execution that is resumed (`ResumeExecution` and `ResumePausedExecution` of
-- internal/engine/executor.go).
use intelligent_workflows.Prelude.{
  ℕ, suc, String, ◌≡◌, refl, inl, inr, [], Option, none, some, ◌==◌, Err, Result, ok, err,
  error_text, Bool-cases, Option-cases, lookup,
}
use intelligent_workflows.Value.{Fields, Go}
use intelligent_workflows.Models.Workflow.{Workflow}
use intelligent_workflows.Models.Execution.{running, result_executed, WorkflowExecution}
use intelligent_workflows.Executor.State.{Ext, World, M, Context, update_execution}
use intelligent_workflows.Executor.Run.{continue_from_step, step_map}
use intelligent_workflows.Executor.Run.Pausing.{
  HasEnded, HasEndedRun, IsPlain, PlainResult, append-ne-nil, msg-IsPlain, steps_loop-plain,
  complete_execution-failed, ended-conclude, run_resumed-HasEnded,
}
use intelligent_workflows.Executor.Resume.{
  Outcome, refused, ended, panicked, out_of_steps, outcome_of, is_running, refusal, with_event,
  resume_at, resume_updated, resume_reloaded, resume_merged, resume_loaded, resume_execution,
  conclude_paused, resume_paused_from, resume_paused_loaded, resume_paused_execution,
}

-- An outcome that is an end of a run, with how the execution is left.
abbrev pub EndedAs : Outcome → WorkflowExecution → Type 0
EndedAs (ended x) e = HasEnded x e
EndedAs _ e = Unit

-- The same where there is no panic and a refusal leaves the execution as it was.
abbrev pub SafelyEndedAs : WorkflowExecution → Outcome → WorkflowExecution → Type 0
SafelyEndedAs before (refused x) e = e ≡ before
SafelyEndedAs before (ended x) e = HasEnded x e
SafelyEndedAs before panicked e = ⊥
SafelyEndedAs before out_of_steps e = Unit

pub EndedAs-outcome_of :
    (r : Option (Option Err)) (e : WorkflowExecution) → HasEndedRun r e → EndedAs (outcome_of r) e
EndedAs-outcome_of none e h = tt
EndedAs-outcome_of (some x) e h = h

SafelyEndedAs-outcome_of :
    (before : WorkflowExecution) (r : Option (Option Err)) (e : WorkflowExecution)
    → HasEndedRun r e
    → SafelyEndedAs before (outcome_of r) e
SafelyEndedAs-outcome_of before none e h = tt
SafelyEndedAs-outcome_of before (some x) e h = h

module _ (go : Go) (ext : Ext) where
  -- The run leaves the execution so that its outcome fits.
  abbrev Ends : M Outcome → Type 0
  Ends m = (w : World) → EndedAs (m w).0 (m w).1.execution

  Ends-resume_at :
      (fuel : ℕ) (flow : Workflow) (ctx : Context) (context : Option Fields) (r : Result String)
      → Ends (resume_at go ext fuel flow ctx context r)
  unfolding resume_at
  Ends-resume_at fuel flow ctx context (err x) w = tt
  Ends-resume_at fuel flow ctx context (ok start) w =
      EndedAs-outcome_of _ _ (run_resumed-HasEnded go ext fuel flow ctx _ start _)

  Ends-resume_updated :
      (fuel : ℕ) (flow : Workflow) (ctx : Context) (context : Option Fields) (failure : Option Err)
      → Ends (resume_updated go ext fuel flow ctx context failure)
  unfolding resume_updated
  Ends-resume_updated fuel flow ctx context (some x) w = tt
  Ends-resume_updated fuel flow ctx context none w = Ends-resume_at fuel flow ctx context _ w

  Ends-resume_reloaded :
      (fuel : ℕ) (flow : Workflow) (ctx : Context) (reloaded : Option (Option Fields))
      → Ends (resume_reloaded go ext fuel flow ctx reloaded)
  unfolding resume_reloaded
  Ends-resume_reloaded fuel flow ctx none w = tt
  Ends-resume_reloaded fuel flow ctx (some context) w =
      let e = record w.execution { context = context; status = running; wait_state = none } in
      let (failure, w') = update_execution ext (record w { execution = e }) in
      Ends-resume_updated fuel flow ctx context failure w'

  Ends-resume_merged :
      (fuel : ℕ) (flow : Option Workflow) (ctx : Context) (context : Option (Option Fields))
      → Ends (resume_merged go ext fuel flow ctx context)
  unfolding resume_merged
  Ends-resume_merged fuel flow ctx none w = tt
  Ends-resume_merged fuel none ctx (some context) w = tt
  Ends-resume_merged fuel (some flow) ctx (some context) w =
      Ends-resume_reloaded fuel flow ctx (ext.reload_context w.calls flow context)
        (record w { calls = suc w.calls })

  Ends-resume_loaded :
      (fuel : ℕ) (flow : Option Workflow) (ctx : Context) (event : String)
      (resume_data : Option Fields) (r : Result WorkflowExecution)
      → Ends (resume_loaded go ext fuel flow ctx event resume_data r)
  unfolding resume_loaded
  Ends-resume_loaded fuel flow ctx event resume_data (err x) w = tt
  Ends-resume_loaded fuel flow ctx event resume_data (ok e) w =
      elim (Option-cases (refusal event e)) [
        | inl h ↦
            rw (h, resume_loaded)
              (Ends-resume_merged fuel flow ctx (with_event resume_data e.context)
                (record w { execution = e }))
        | inr (x, h) ↦ rw (h, resume_loaded) tt
      ]

  continue_from_step-plain :
      (fuel : ℕ) (flow : Workflow) (ctx : Context) (context : Fields) (start : String) (w : World)
      → PlainResult (continue_from_step go ext fuel flow ctx context start w).0
  unfolding continue_from_step
  continue_from_step-plain fuel flow ctx context start w = elim (Bool-cases (start == "")) [
    | inl e ↦ rw (e, continue_from_step) tt
    | inr e ↦ elim (Option-cases (lookup start (step_map flow.definition.steps []))) [
      | inl missing ↦
          rw (e, missing, continue_from_step)
            (msg-IsPlain _ (append-ne-nil "start step not found: " _ (λ p. cc)))
      | inr (s, found) ↦
          rw (e, found, continue_from_step)
            (steps_loop-plain go ext (λ v. (none, v)) (λ v. tt) fuel
              (step_map flow.definition.steps []) ctx context start result_executed w)
    ]
  ]

  ended-conclude_paused :
      (e : Err) (w : World)
      → IsPlain (some e)
      → HasEnded (conclude_paused go ext e w).0 (conclude_paused go ext e w).1.execution
  unfolding conclude_paused
  ended-conclude_paused e w plain = complete_execution-failed go ext (error_text e) w plain.1 e

  Ends-resume_paused_loaded :
      (fuel : ℕ) (ctx : Context) (e : WorkflowExecution) (r : Result Workflow) (w : World)
      → SafelyEndedAs w.execution
          (resume_paused_loaded go ext fuel ctx e r w).0
          (resume_paused_loaded go ext fuel ctx e r w).1.execution
  unfolding resume_paused_loaded resume_paused_from
  Ends-resume_paused_loaded fuel ctx e (err x) w = refl
  Ends-resume_paused_loaded fuel ctx e (ok flow) w = SafelyEndedAs-outcome_of w.execution _ _ (
      ended-conclude go ext (conclude_paused go ext) ended-conclude_paused _ _
        (continue_from_step-plain fuel flow ctx _ _ _))

-- Whatever the event, the workflow and the calls outside of the engine are, an execution that
-- `ResumeExecution` runs to an end is left either completed, with a result and no error returned, or
-- failed, with the result `failed`, a message that is not empty and an error returned.
pub resume_execution-EndedAs :
    (go : Go) (ext : Ext) (fuel id : ℕ) (flow : Option Workflow) (ctx : Context) (event : String)
    (resume_data : Option Fields) (w : World)
    → EndedAs
        (resume_execution go ext fuel id flow ctx event resume_data w).0
        (resume_execution go ext fuel id flow ctx event resume_data w).1.execution
unfolding resume_execution
resume_execution-EndedAs go ext fuel id flow ctx event resume_data w =
    Ends-resume_loaded go ext fuel flow ctx event resume_data _ _

-- `ResumePausedExecution` does not panic; where it returns an error before the run, the execution is
-- as it was, and a run that ends leaves it either completed, with a result and no error returned, or
-- failed, with the result `failed`, a message that is not empty and an error returned.
pub resume_paused_execution-SafelyEndedAs :
    (go : Go) (ext : Ext) (fuel : ℕ) (ctx : Context) (w : World)
    → SafelyEndedAs w.execution
        (resume_paused_execution go ext fuel ctx w).0
        (resume_paused_execution go ext fuel ctx w).1.execution
unfolding resume_paused_execution
resume_paused_execution-SafelyEndedAs go ext fuel ctx w =
    elim (Bool-cases (is_running w.execution.status)) [
      | inl h ↦
          rw (h, resume_paused_execution)
            (Ends-resume_paused_loaded go ext fuel ctx w.execution _ _)
      | inr h ↦ rw (h, resume_paused_execution) refl
    ]
