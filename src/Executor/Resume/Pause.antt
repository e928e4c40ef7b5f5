-- ===== src/Executor/Resume/Pause.antt =====
-- Pausing an execution (`PauseCurrentExecution` of internal/engine/executor.go).
use intelligent_workflows.Prelude.{ℕ, String, Option, none, some, ◌==◌, if◌then◌else◌, wrap}
use intelligent_workflows.Value.{jsonb, put}
use intelligent_workflows.Models.Execution.{paused_status, WorkflowExecution}
use intelligent_workflows.Executor.State.{
  Ext, M, ◌>>=◌, ◌>>◌, return, get_execution, set_execution, time_now, update_execution,
}
use intelligent_workflows.Executor.Resume.{Outcome, ended, panicked, context_or_new}

-- The first part of `PauseCurrentExecution`.
abbrev pub paused_record : String → ℕ → WorkflowExecution → WorkflowExecution
paused_record reason t e = record e {
  status = paused_status;
  paused_at = some t;
  paused_reason = some reason;
}

abbrev pub with_paused_context : WorkflowExecution → WorkflowExecution
with_paused_context e = record e {
  resume_data =
      some (put "paused_context" (jsonb (context_or_new e.context)) (context_or_new e.resume_data));
}

module _ (ext : Ext) where
  -- An ID that is not empty is parsed, and `rest` gets the pointer to it; otherwise the old one stays.
  unfoldable pub parsed : String → Option ℕ → (Option ℕ → M Outcome) → M Outcome
  parsed text old rest =
      if text == ""
      then rest old
      else elim (ext.parse_id text) [ none ↦ return panicked | some id ↦ rest (some id) ]

  unfoldable pub pause_saved : M Outcome
  unfolding update_execution
  pause_saved = do
    e ← get_execution
    set_execution (with_paused_context e)
    failure ← update_execution ext
    return (elim failure [
      | some x ↦ ended (some (wrap "failed to pause execution" x))
      | none ↦ ended none
    ])

  -- The calls of `parsed` go on with these.
  unfoldable pub next_parsed : Option ℕ → M Outcome
  unfolding pause_saved
  next_parsed next_id = do
    e ← get_execution
    set_execution (record e { next_step_id = next_id })
    pause_saved

  unfoldable pub paused_parsed : String → Option ℕ → Option ℕ → M Outcome
  unfolding next_parsed parsed
  paused_parsed next_step old paused_id = do
    e ← get_execution
    set_execution (record e { paused_step_id = paused_id })
    parsed next_step old next_parsed

  unfoldable pub pause_current_execution : String → String → String → M Outcome
  unfolding time_now paused_parsed
  pause_current_execution reason paused_step next_step = do
    t ← time_now ext
    e ← get_execution
    set_execution (paused_record reason t e)
    parsed paused_step e.paused_step_id (paused_parsed next_step e.next_step_id)
