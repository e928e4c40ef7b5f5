-- ===== src/Resumer/Pausing.antt =====
-- What `PauseExecution` (internal/services/workflow_resumer.go) leaves behind.
use intelligent_workflows.Prelude.{
  ℕ, suc, String, Bool, true, false, ◌≡◌, refl, ap, ◌∷◌, Option, none, some, inl, inr, ◌↔◌, Err,
  Result, ok, err, ltb, ◌-◌, ◌+◌, ◌≤◌, ◌∙◌, Bool-cases, arith,
}
use intelligent_workflows.Models.Execution.{
  ExecutionStatus, running, paused_status, WorkflowExecution,
}
use intelligent_workflows.Executor.State.{Ext, World, update_execution, time_now, kept}
use intelligent_workflows.Executor.Resume.{is_running}
use intelligent_workflows.Resumer.{
  Services, max_pause_duration, paused_for, audit, can_resume, pause_stored, pause_running,
  pause_loaded, pause_configured, pause_execution,
}

abbrev pub step_or : Option ℕ → Option ℕ → Option ℕ
step_or none old = old
step_or (some id) old = some id

-- The execution with the pause: nothing else of it changes.
abbrev pub with_pause : String → Option ℕ → ℕ → WorkflowExecution → WorkflowExecution
with_pause reason step t e = record e {
  status = paused_status;
  paused_at = some t;
  paused_reason = some reason;
  paused_step_id = step_or step e.paused_step_id;
}

module _ (services : Services) (ext : Ext) where
  -- After an error, nothing was written. Otherwise the execution that was loaded was running; it is
  -- stored with the pause, at the time that the clock gives at the call after the execution is loaded,
  -- and `CanResume` accepts it at the times up to seven days of nanoseconds after, and no others.
  abbrev pub PausedAs :
      Result WorkflowExecution → String → Option ℕ → World → Option Err → World → Type 0
  PausedAs loaded reason step before (some x) after = after.saved ≡ before.saved
  PausedAs loaded reason step before none after =
      let t = ext.now (suc before.calls) in
      (e : WorkflowExecution) × (loaded ≡ ok e)
      × (e.status ≡ running)
      × (after.saved ≡ with_pause reason step t e ∷ before.saved)
      × ((now : ℕ)
          → (can_resume services ext (some (with_pause reason step t e)) now ≡ none)
            ↔ (now ≤ t + 604800000000000))

  resumable :
      (e : WorkflowExecution) (t now : ℕ)
      → e.status ≡ paused_status
      → e.paused_at ≡ some t
      → (can_resume services ext (some e) now ≡ none) ↔ (now ≤ t + 604800000000000)
  unfolding can_resume
  resumable e t now s p = elim (Bool-cases (ltb max_pause_duration (now - t))) [
    | inl h ↦ rw (s, p, h) (λ q. ground arith, λ q. ground arith)
    | inr h ↦ rw (s, p, h) (λ q. ground arith, λ q. refl)
  ]

  is_running-running : (s : ExecutionStatus) → is_running s ≡ true → s ≡ running
  is_running-running s h = ground arith

  paused_for-with_pause :
      (reason : String) (step : Option ℕ) (t : ℕ) (e : WorkflowExecution)
      → paused_for reason step t e ≡ with_pause reason step t e
  paused_for-with_pause reason none t e = refl
  paused_for-with_pause reason (some id) t e = refl

  PausedAs-stored :
      (reason : String) (step : Option ℕ) (e : WorkflowExecution) (failure : Option Err)
      (before w : World)
      → is_running e.status ≡ true
      → w.saved ≡ kept failure (paused_for reason step (ext.now (suc before.calls)) e) before.saved
      → PausedAs
          (ok e)
          reason
          step
          before
          (pause_stored services ext failure w).0
          (pause_stored services ext failure w).1
  unfolding pause_stored audit
  PausedAs-stored reason step e (some x) before w s k = k
  PausedAs-stored reason step e none before w s k =
      let t = ext.now (suc before.calls) in
      (
        e,
        refl,
        is_running-running e.status s,
        k ∙ ap (λ x. x ∷ before.saved) (paused_for-with_pause reason step t e),
        λ now. resumable (with_pause reason step t e) t now refl refl,
      )

  PausedAs-loaded :
      (reason : String) (step : Option ℕ) (r : Result WorkflowExecution) (before w : World)
      → w.saved ≡ before.saved
      → w.calls ≡ suc before.calls
      → PausedAs r reason step before
          (pause_loaded services ext reason step r w).0
          (pause_loaded services ext reason step r w).1
  unfolding pause_loaded pause_running time_now update_execution
  PausedAs-loaded reason step (err x) before w k n = k
  PausedAs-loaded reason step (ok e) before w k n = elim (Bool-cases (is_running e.status)) [
    | inl h ↦
        let t = ext.now w.calls in
        let paused = paused_for reason step t e in
        let failure = ext.update_execution (suc w.calls) paused in
        rw (h, pause_loaded)
          (PausedAs-stored reason step e failure before
            (record w {
              calls = suc (suc w.calls);
              execution = paused;
              saved = kept failure paused w.saved;
            })
            h
            (ap (kept failure paused) k
              ∙ ap (λ m. kept failure (paused_for reason step (ext.now m) e) before.saved) n))
    | inr h ↦ rw (h, pause_loaded) k
  ]

PausedAs-configured :
    (services : Services) (ext : Ext) (configured : Bool) (id : ℕ) (reason : String)
    (step : Option ℕ) (w : World)
    → PausedAs services ext
        (ext.get_execution_by_id w.calls 0 id)
        reason
        step
        w
        (pause_configured services ext configured id reason step w).0
        (pause_configured services ext configured id reason step w).1
unfolding pause_configured
PausedAs-configured services ext false id reason step w = refl
PausedAs-configured services ext true id reason step w =
    PausedAs-loaded services ext reason step (ext.get_execution_by_id w.calls 0 id) w
      (record w { calls = suc w.calls }) refl refl

-- `PauseExecution` either returns an error, and has written nothing; or the execution that it loads,
-- from the nil organization, was running, and it is stored, with all that it had, as paused with the
-- reason, the time that the clock gives after the loading and, where one is given, the step.
-- `CanResume` accepts what is stored exactly at the times that are at most seven days later.
pub pause_execution-PausedAs :
    (services : Services) (ext : Ext) (id : ℕ) (reason : String) (step : Option ℕ) (w : World)
    → PausedAs services ext
        (ext.get_execution_by_id w.calls 0 id)
        reason
        step
        w
        (pause_execution services ext id reason step w).0
        (pause_execution services ext id reason step w).1
unfolding pause_execution
pause_execution-PausedAs services ext = PausedAs-configured services ext services.has_repository
