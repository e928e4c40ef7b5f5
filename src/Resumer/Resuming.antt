-- ===== src/Resumer/Resuming.antt =====
-- What `ResumeWorkflow` and `ResumeExecution` (internal/services/workflow_resumer.go) leave behind.
use intelligent_workflows.Prelude.{
  ℕ, suc, Bool, true, false, ◌≡◌, refl, sym, ap, ◌∙◌, subst, Option, none, some, inl, inr, ◌⊎◌, Err,
  wrap, Result, ok, err,
}
use mathlib.Core.Bool.{false≢true}
use intelligent_workflows.Value.{Fields, merge, Go}
use intelligent_workflows.Models.Execution.{running, WorkflowExecution}
use intelligent_workflows.Executor.State.{Ext, World, Context, update_execution, time_now}
use intelligent_workflows.Executor.Run.Pausing.{HasEnded}
use intelligent_workflows.Executor.Resume.{Outcome, refused, ended, panicked, out_of_steps}
use intelligent_workflows.Executor.Resume.Ending.{
  SafelyEndedAs, resume_paused_execution-SafelyEndedAs,
}
use intelligent_workflows.Resumer.{
  Services, can_resume, audit, engine_returned, engine_resumed, resume_stored, resume,
  resume_checked, resumption_loaded, resume_configured, resume_workflow, resume_execution,
  approval_data,
}

-- How an execution is left that the engine has resumed; without an engine it is left running.
abbrev pub EngineEndedAs : Bool → Option Err → WorkflowExecution → Type 0
EngineEndedAs true x e = HasEnded x e
EngineEndedAs false x e = (x ≡ none) × (e.status ≡ running)

-- How a resumption ends: it does not panic. Where it refuses, nothing was written, or the execution is
-- left running. Otherwise the execution that was loaded could be resumed at the time that the clock
-- gives at the next call, and the engine has run it to an end.
abbrev pub ResumedAs : Services → Ext → Result WorkflowExecution → World → Outcome → World → Type 0
ResumedAs services ext loaded before (refused x) after =
    (after.saved ≡ before.saved) ⊎ (after.execution.status ≡ running)
ResumedAs services ext loaded before (ended x) after =
    (e : WorkflowExecution) × (loaded ≡ ok e)
    × (can_resume services ext (some e) (ext.now (suc before.calls)) ≡ none)
    × EngineEndedAs services.has_engine x after.execution
ResumedAs services ext loaded before panicked after = ⊥
ResumedAs services ext loaded before out_of_steps after = Unit

module _ (services : Services) (ext : Ext) (go : Go) where
  ResumedAs-returned :
      (e : WorkflowExecution) (before w' w : World) (r : Outcome)
      → can_resume services ext (some e) (ext.now (suc before.calls)) ≡ none
      → services.has_engine ≡ true
      → w'.execution.status ≡ running
      → SafelyEndedAs w'.execution r w.execution
      → ResumedAs services ext
          (ok e)
          before
          (engine_returned services ext go r w).0
          (engine_returned services ext go r w).1
  unfolding engine_returned audit
  ResumedAs-returned e before w' w (refused x) can engine run safe =
      inr (ap (λ v. v.status) safe ∙ run)
  ResumedAs-returned e before w' w (ended (some x)) can engine run safe = (
    e,
    refl,
    can,
    subst (λ b. EngineEndedAs b (some (wrap "failed to resume execution in engine" x)) w.execution)
        (sym engine) safe,
  )
  ResumedAs-returned e before w' w (ended none) can engine run safe =
      (e, refl, can, subst (λ b. EngineEndedAs b none w.execution) (sym engine) safe)
  ResumedAs-returned e before w' w panicked can engine run safe = safe
  ResumedAs-returned e before w' w out_of_steps can engine run safe = tt

  ResumedAs-engine :
      (fuel : ℕ) (ctx : Context) (e : WorkflowExecution) (before w : World) (engine : Bool)
      → can_resume services ext (some e) (ext.now (suc before.calls)) ≡ none
      → services.has_engine ≡ engine
      → w.execution.status ≡ running
      → ResumedAs services ext
          (ok e)
          before
          (engine_resumed services ext go engine fuel ctx w).0
          (engine_resumed services ext go engine fuel ctx w).1
  unfolding engine_resumed engine_returned audit
  ResumedAs-engine fuel ctx e before w true can engine run =
      ResumedAs-returned e before w _ _ can engine run
        (resume_paused_execution-SafelyEndedAs go ext fuel ctx w)
  ResumedAs-engine fuel ctx e before w false can engine run =
      (e, refl, can, subst (λ b. EngineEndedAs b none w.execution) (sym engine) (refl, run))

  ResumedAs-stored :
      (fuel : ℕ) (ctx : Context) (e : WorkflowExecution) (before w : World) (failure : Option Err)
      → can_resume services ext (some e) (ext.now (suc before.calls)) ≡ none
      → w.execution.status ≡ running
      → ResumedAs services ext
          (ok e)
          before
          (resume_stored services ext go fuel ctx failure w).0
          (resume_stored services ext go fuel ctx failure w).1
  unfolding resume_stored
  ResumedAs-stored fuel ctx e before w (some x) can run = inr run
  ResumedAs-stored fuel ctx e before w none can run =
      ResumedAs-engine fuel ctx e before w services.has_engine can refl run

  module _ (fuel : ℕ) (ctx : Context) (change : ℕ → Fields → Fields) where
    ResumedAs-checked :
        (e : WorkflowExecution) (before w : World) (refusal : Option Err)
        → w.saved ≡ before.saved
        → can_resume services ext (some e) (ext.now (suc before.calls)) ≡ refusal
        → ResumedAs services ext
            (ok e)
            before
            (resume_checked services ext go fuel ctx change e refusal w).0
            (resume_checked services ext go fuel ctx change e refusal w).1
    unfolding resume_checked resume time_now update_execution
    ResumedAs-checked e before w (some x) k can = inl k
    ResumedAs-checked e before w none k can = ResumedAs-stored fuel ctx e before _ _ can refl

    ResumedAs-loaded :
        (r : Result WorkflowExecution) (before w : World)
        → w.saved ≡ before.saved
        → w.calls ≡ suc before.calls
        → ResumedAs services ext r before
            (resumption_loaded services ext go fuel ctx change r w).0
            (resumption_loaded services ext go fuel ctx change r w).1
    unfolding resumption_loaded time_now
    ResumedAs-loaded (err x) before w k n = inl k
    ResumedAs-loaded (ok e) before w k n =
        ResumedAs-checked e before (record w { calls = suc w.calls })
          (can_resume services ext (some e) (ext.now w.calls)) k
          (ap (λ m. can_resume services ext (some e) (ext.now m)) (sym n))

    ResumedAs-configured :
        (configured : Bool) (missing : Outcome) (id : ℕ) (w : World)
        → configured ≡ true
        → ResumedAs services ext
            (ext.get_execution_by_id w.calls 0 id)
            w
            (resume_configured services ext go configured missing fuel ctx id change w).0
            (resume_configured services ext go configured missing fuel ctx id change w).1
    unfolding resume_configured
    ResumedAs-configured false missing id w h = elim (false≢true h) [ ]
    ResumedAs-configured true missing id w h =
        ResumedAs-loaded (ext.get_execution_by_id w.calls 0 id) w (record w { calls = suc w.calls })
          refl refl

-- Where the repository is configured, `ResumeWorkflow` and `ResumeExecution` do not panic. Where they
-- refuse, nothing was written, or the execution is left with the status running. Otherwise `CanResume`
-- accepted the execution that was loaded, from the nil organization, at the time that the clock gives
-- right after, and the engine has run it to an
-- end: it is completed with a result and no error is returned, or it has failed with the result
-- `failed` and a message, and an error is returned; without an engine it is left running, with no error.
pub resumption-ResumedAs :
    (services : Services) (ext : Ext) (go : Go) (fuel : ℕ) (ctx : Context) (id : ℕ)
    (approved : Bool) (resume_data : Fields) (w : World)
    → services.has_repository ≡ true
    → let (r, w') = resume_workflow services ext go fuel ctx id approved w in
      let (s, w'') = resume_execution services ext go fuel ctx id resume_data w in
      let loaded = ext.get_execution_by_id w.calls 0 id in
      ResumedAs services ext loaded w r w' × ResumedAs services ext loaded w s w''
unfolding resume_workflow resume_execution
resumption-ResumedAs services ext go fuel ctx id approved resume_data w h = (
  ResumedAs-configured services ext go fuel ctx (approval_data approved) services.has_repository _
      id w h,
  ResumedAs-configured services ext go fuel ctx (λ now m. merge resume_data m)
      services.has_repository _ id w h,
)
