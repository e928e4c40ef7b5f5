-- ===== src/Resumer.antt =====
-- The workflow resumer (internal/services/workflow_resumer.go). It shares the world of the executor,
-- which it calls; the calls of the audit service, whose errors are only logged, are only counted.
pub mod Pausing
pub mod Resuming
use intelligent_workflows.Prelude.{
  ℕ, suc, String, Bool, true, false, List, [], ◌∷◌, Option, none, some, if◌then◌else◌, ltb, ◌-◌,
  ◌*◌, Err, msg, wrap, concat, Result, ok, err,
}
use intelligent_workflows.Value.{Value, bool, time, Fields, put, merge, Go}
use intelligent_workflows.Models.Execution.{
  ExecutionStatus, running, paused_status, WorkflowExecution,
}
use intelligent_workflows.Executor.State.{
  Ext, World, M, ◌>>=◌, ◌>>◌, return, ask, get_execution, set_execution, Context, time_now,
  update_execution,
}
use intelligent_workflows.Executor.Policy.{second}
use intelligent_workflows.Executor.Resume.{
  Outcome, refused, ended, panicked, out_of_steps, status_text, is_running, context_or_new,
  resume_paused_execution,
}

-- Which parts are configured, and how a time is printed.
pub record Services : Type 0 where
  pub has_repository : Bool
  pub has_engine : Bool
  pub has_audit : Bool
  pub time_text : ℕ → String

-- `7 * 24 * time.Hour`
abbrev pub max_pause_duration : ℕ
max_pause_duration = 7 * (24 * (3600 * second))

abbrev pub is_paused_status : ExecutionStatus → Bool
is_paused_status ExecutionStatus.paused_status = true
is_paused_status _ = false

abbrev pub paused_for : String → Option ℕ → ℕ → WorkflowExecution → WorkflowExecution
paused_for reason step now e = record e {
  status = paused_status;
  paused_at = some now;
  paused_reason = some reason;
  paused_step_id = elim step [ none ↦ e.paused_step_id | some id ↦ some id ];
}

abbrev pub resumed_at : ℕ → WorkflowExecution → WorkflowExecution
resumed_at now e = record e {
  status = running;
  last_resumed_at = some now;
  resume_count = suc e.resume_count;
  paused_at = none;
  paused_reason = none;
}

-- What `ResumeWorkflow` does with the resume data, at a time. `ResumeExecution` reads no time there.
abbrev pub approval_data : Bool → ℕ → Fields → Fields
approval_data approved now m = put "resumed_at" (time now) (put "approved" (bool approved) m)

abbrev pub with_data : Fields → WorkflowExecution → WorkflowExecution
with_data m e = record e { resume_data = some m }

module _ (services : Services) (ext : Ext) where
  -- The refusals of `CanResume` at a time; a time before the pause makes a negative duration, which is
  -- not too long.
  abbrev pub pause_refusal : WorkflowExecution → ℕ → Option ℕ → Option Err
  pause_refusal e now none =
      some (msg (concat ("execution " ∷ ext.id_text e.id ∷ " has no pause timestamp" ∷ [])))
  pause_refusal e now (some t) =
      if ltb max_pause_duration (now - t)
      then some (
          msg (
            concat (
              "execution "
              ∷ ext.id_text e.id
              ∷ " has been paused for too long (paused at: "
              ∷ services.time_text t
              ∷ ")"
              ∷ [])))
      else none

  unfoldable pub can_resume : Option WorkflowExecution → ℕ → Option Err
  can_resume none now = some (msg "execution is nil")
  can_resume (some e) now =
      if is_paused_status e.status
      then pause_refusal e now e.paused_at
      else some (
          msg (
            concat (
              "execution "
              ∷ ext.id_text e.id
              ∷ " is not paused (status: "
              ∷ status_text e.status
              ∷ ")"
              ∷ [])))

  unfoldable pub audit : M (Unit {0})
  audit w = (tt, record w { calls = if services.has_audit then suc w.calls else w.calls })

  -- `PauseExecution`, after the update
  unfoldable pub pause_stored : Option Err → M (Option Err)
  unfolding audit
  pause_stored (some x) = return (some (wrap "failed to update execution" x))
  pause_stored none = do audit; return none

  unfoldable pub pause_running : String → Option ℕ → WorkflowExecution → M (Option Err)
  unfolding time_now update_execution pause_stored
  pause_running reason step e = do
    now ← time_now ext
    set_execution (paused_for reason step now e)
    failure ← update_execution ext
    pause_stored failure

  unfoldable pub pause_loaded : String → Option ℕ → Result WorkflowExecution → M (Option Err)
  unfolding pause_running
  pause_loaded reason step (err x) = return (some (wrap "failed to get execution" x))
  pause_loaded reason step (ok e) = elim (is_running e.status) [
    | true ↦ pause_running reason step e
    | false ↦ return (
        some (
          msg (
            concat (
              "execution "
              ∷ ext.id_text e.id
              ∷ " is not running (status: "
              ∷ status_text e.status
              ∷ ")"
              ∷ []))))
  ]

  unfoldable pub pause_configured : Bool → ℕ → String → Option ℕ → M (Option Err)
  unfolding pause_loaded
  pause_configured false id reason step = return (some (msg "execution repository not configured"))
  pause_configured true id reason step = do
    loaded ← ask (λ n. ext.get_execution_by_id n 0 id)
    pause_loaded reason step loaded

  -- `PauseExecution`
  unfoldable pub pause_execution : ℕ → String → Option ℕ → M (Option Err)
  unfolding pause_configured
  pause_execution = pause_configured services.has_repository

  module _ (go : Go) where
    -- What follows the call of the engine.
    unfoldable pub engine_returned : Outcome → M Outcome
    unfolding audit
    engine_returned (refused x) = return (refused (wrap "failed to resume execution in engine" x))
    engine_returned (ended (some x)) =
        return (ended (some (wrap "failed to resume execution in engine" x)))
    engine_returned (ended none) = do audit; return (ended none)
    engine_returned panicked = return panicked
    engine_returned out_of_steps = return out_of_steps

    unfoldable pub engine_resumed : Bool → ℕ → Context → M Outcome
    unfolding engine_returned
    engine_resumed true fuel ctx = do r ← resume_paused_execution go ext fuel ctx; engine_returned r
    engine_resumed false fuel ctx = engine_returned (ended none)

    unfoldable pub resume_stored : ℕ → Context → Option Err → M Outcome
    unfolding engine_resumed
    resume_stored fuel ctx (some x) = return (refused (wrap "failed to update execution" x))
    resume_stored fuel ctx none = engine_resumed services.has_engine fuel ctx

    -- `resumeExecution`
    unfoldable pub resume : ℕ → Context → M Outcome
    unfolding time_now update_execution resume_stored
    resume fuel ctx = do
      now ← time_now ext
      e ← get_execution
      set_execution (resumed_at now e)
      failure ← update_execution ext
      resume_stored fuel ctx failure

    unfoldable pub resume_checked :
        ℕ → Context → (ℕ → Fields → Fields) → WorkflowExecution → Option Err → M Outcome
    unfolding resume time_now
    resume_checked fuel ctx change e (some x) = return (refused x)
    resume_checked fuel ctx change e none = do
      now ← time_now ext
      set_execution (with_data (change now (context_or_new e.resume_data)) e)
      resume fuel ctx

    unfoldable pub resumption_loaded :
        ℕ → Context → (ℕ → Fields → Fields) → Result WorkflowExecution → M Outcome
    unfolding resume_checked can_resume time_now
    resumption_loaded fuel ctx change (err x) = return (refused (wrap "failed to get execution" x))
    resumption_loaded fuel ctx change (ok e) = do
      now ← time_now ext
      resume_checked fuel ctx change e (can_resume (some e) now)

    unfoldable pub resume_configured :
        Bool → Outcome → ℕ → Context → ℕ → (ℕ → Fields → Fields) → M Outcome
    unfolding resumption_loaded
    resume_configured false missing fuel ctx id change = return missing
    resume_configured true missing fuel ctx id change = do
      loaded ← ask (λ n. ext.get_execution_by_id n 0 id)
      resumption_loaded fuel ctx change loaded

    -- `ResumeWorkflow`, which does nothing without a repository
    unfoldable pub resume_workflow : ℕ → Context → ℕ → Bool → M Outcome
    unfolding resume_configured
    resume_workflow fuel ctx id approved =
        resume_configured services.has_repository (ended none) fuel ctx id (approval_data approved)

    -- `ResumeExecution`
    unfoldable pub resume_execution : ℕ → Context → ℕ → Fields → M Outcome
    unfolding resume_configured
    resume_execution fuel ctx id resume_data =
        resume_configured services.has_repository
          (refused (msg "execution repository not configured")) fuel ctx id
          (λ now m. merge resume_data m)
