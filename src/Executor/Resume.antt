-- ===== src/Executor/Resume.antt =====
-- Resuming an execution (`ResumeExecution` and `ResumePausedExecution` of
-- internal/engine/executor.go).
pub mod Pause
pub mod Guards
pub mod Ending
pub mod Waiting
use intelligent_workflows.Prelude.{
  ℕ, String, Bool, true, false, not, List, [], ◌∷◌, Option, none, some, ◌==◌, if◌then◌else◌, Err,
  msg, wrap, error_text, concat, Result, ok, err, lookup,
}
use intelligent_workflows.Value.{string, object, Fields, empty, get, put, merge, Go}
use intelligent_workflows.Models.Workflow.{Step, info, Workflow}
use intelligent_workflows.Models.Execution.{
  ExecutionStatus, running, waiting, paused_status, result_failed, WaitState, WorkflowExecution,
}
use intelligent_workflows.Executor.State.{
  ◌>>=◌, ◌>>◌, Ext, M, return, ask, get_execution, set_execution, Context, update_execution,
}
use intelligent_workflows.Executor.Run.{
  complete_execution, conclude, continue_from_step, run_resumed, step_map,
}

-- What the functions return. `refused` is an error without the execution, before anything is run;
-- `ended` is an error that may be nil, after a run; `out_of_steps` marks that the fuel ran out.
pub data Outcome : Type 0 where
  refused : Err → Outcome
  ended : Option Err → Outcome
  panicked out_of_steps : Outcome

abbrev pub outcome_of : Option (Option Err) → Outcome
outcome_of none = out_of_steps
outcome_of (some x) = ended x

abbrev pub status_text : ExecutionStatus → String
status_text ExecutionStatus.pending = "pending"
status_text ExecutionStatus.running = "running"
status_text ExecutionStatus.waiting = "waiting"
status_text ExecutionStatus.completed = "completed"
status_text ExecutionStatus.failed = "failed"
status_text ExecutionStatus.blocked = "blocked"
status_text ExecutionStatus.cancelled = "cancelled"
status_text ExecutionStatus.paused_status = "paused"

abbrev pub is_waiting : ExecutionStatus → Bool
is_waiting ExecutionStatus.waiting = true
is_waiting _ = false

abbrev pub is_running : ExecutionStatus → Bool
is_running ExecutionStatus.running = true
is_running _ = false

-- The checks of `ResumeExecution` on the loaded execution.
unfoldable pub event_refusal : String → Option WaitState → Option Err
event_refusal event none = some (msg "execution has no wait state")
event_refusal event (some s) =
    if s.event == event
    then none
    else some (msg (concat ("unexpected event: waiting for " ∷ s.event ∷ ", got " ∷ event ∷ [])))

unfoldable pub refusal : String → WorkflowExecution → Option Err
unfolding event_refusal
refusal event e =
    if is_waiting e.status
    then event_refusal event e.wait_state
    else some (
        msg (
          concat
            ("execution is not in waiting state, current status: " ∷ status_text e.status ∷ [])))

-- `execContext["resume_event"] = resumeData`; `none` where the map is nil, which panics.
abbrev pub with_event : Option Fields → Option Fields → Option (Option Fields)
with_event none context = some context
with_event (some d) none = none
with_event (some d) (some m) = some (some (put "resume_event" (object d) m))

-- `waitStep.Metadata["on_resume"].(string)`, empty where there is none
unfoldable pub on_resume : Option Fields → String
unfolding get
on_resume none = ""
on_resume (some m) = elim (get "on_resume" m) [ some (string s) ↦ s | _ ↦ "" ]

-- The ID of the step after the first one with the given ID that has a step after it.
unfoldable pub following : String → List Step → String
following id [] = ""
following id (s ∷ []) = ""
following id (s ∷ t ∷ rest) =
    let later = following id (t ∷ rest) in if (info s).id == id then (info t).id else later

unfoldable pub next_after : String → Step → List Step → String
unfolding on_resume following
next_after id s steps =
    if on_resume (info s).metadata == "" then following id steps else on_resume (info s).metadata

-- The step to go on with, and the error where the wait step is not found.
unfoldable pub resume_target : Option String → List Step → Result String
unfolding next_after lookup step_map
resume_target none steps = ok ""
resume_target (some id) steps = elim (lookup id (step_map steps [])) [
  | none ↦ err (msg (concat ("wait step not found: " ∷ id ∷ [])))
  | some s ↦ ok (next_after id s steps)
]

-- `execContext`, a new map where the execution has none.
abbrev pub context_or_new : Option Fields → Fields
context_or_new none = empty
context_or_new (some m) = m

-- The merge of the resume data writes into the map of the execution, if it has one.
abbrev pub resumed_context : Option Fields → Option Fields → Option Fields
resumed_context none data_of = none
resumed_context (some m) none = some m
resumed_context (some m) (some d) = some (merge d m)

abbrev pub merged_context : Option Fields → Option Fields → Fields
merged_context context none = context_or_new context
merged_context context (some d) = merge d (context_or_new context)

abbrev pub first_id : List Step → String
first_id [] = ""
first_id (s ∷ ss) = (info s).id

module _ (go : Go) (ext : Ext) where
  -- The run from the step that is found.
  unfoldable pub resume_at : ℕ → Workflow → Context → Option Fields → Result String → M Outcome
  unfolding run_resumed
  resume_at fuel w ctx context (err x) = return (refused x)
  resume_at fuel w ctx context (ok start) = do
    e ← get_execution
    set_execution (record e { current_step_id = none })
    r ← run_resumed go ext fuel w ctx (context_or_new context) start
    return (outcome_of r)

  -- What follows the update, which may fail.
  unfoldable pub resume_updated : ℕ → Workflow → Context → Option Fields → Option Err → M Outcome
  unfolding resume_target resume_at
  resume_updated fuel w ctx context (some x) =
      return (refused (wrap "failed to update execution status" x))
  resume_updated fuel w ctx context none = do
    e ← get_execution
    resume_at fuel w ctx context (resume_target e.current_step_id w.definition.steps)

  -- What follows the reload of the context, which may panic.
  unfoldable pub resume_reloaded : ℕ → Workflow → Context → Option (Option Fields) → M Outcome
  unfolding update_execution resume_updated
  resume_reloaded fuel w ctx none = return panicked
  resume_reloaded fuel w ctx (some context) = do
    e ← get_execution
    set_execution (record e { context = context; status = running; wait_state = none })
    failure ← update_execution ext
    resume_updated fuel w ctx context failure

  -- What follows the merge of the resume data; a nil workflow is dereferenced.
  unfoldable pub resume_merged : ℕ → Option Workflow → Context → Option (Option Fields) → M Outcome
  unfolding resume_reloaded
  resume_merged fuel w ctx none = return panicked
  resume_merged fuel none ctx (some context) = return panicked
  resume_merged fuel (some w) ctx (some context) = do
    reloaded ← ask (λ n. ext.reload_context n w context)
    resume_reloaded fuel w ctx reloaded

  unfoldable pub resume_loaded :
      ℕ → Option Workflow → Context → String → Option Fields → Result WorkflowExecution → M Outcome
  unfolding refusal resume_merged
  resume_loaded fuel w ctx event resume_data (err x) =
      return (refused (wrap "failed to load execution" x))
  resume_loaded fuel w ctx event resume_data (ok e) = elim (refusal event e) [
    | some x ↦ return (refused x)
    | none ↦ do set_execution e; resume_merged fuel w ctx (with_event resume_data e.context)
  ]

  abbrev pub organization_of : Option Workflow → ℕ
  organization_of none = 0
  organization_of (some w) = w.organization_id

  unfoldable pub resume_execution :
      ℕ → ℕ → Option Workflow → Context → String → Option Fields → M Outcome
  unfolding resume_loaded
  resume_execution fuel id w ctx event resume_data = do
    loaded ← ask (λ n. ext.get_execution_by_id n (organization_of w) id)
    resume_loaded fuel w ctx event resume_data loaded

  -- Where `ResumePausedExecution` starts.
  unfoldable pub start_step : WorkflowExecution → Workflow → String
  start_step e w = elim e.next_step_id [
    | some id ↦ ext.id_text id
    | none ↦ elim e.paused_step_id [ some id ↦ ext.id_text id | none ↦ first_id w.definition.steps ]
  ]

  -- An error of `continueFromStep`, whatever it is, fails the execution.
  unfoldable pub conclude_paused : Err → M (Option Err)
  unfolding complete_execution error_text
  conclude_paused e = do complete_execution go ext result_failed (error_text e); return (some e)

  unfoldable pub resume_paused_from : ℕ → Workflow → Context → WorkflowExecution → M Outcome
  unfolding continue_from_step conclude conclude_paused start_step merge
  resume_paused_from fuel w ctx e = do
    set_execution (record e { context = resumed_context e.context e.resume_data })
    r ←
        continue_from_step go ext fuel w ctx (merged_context e.context e.resume_data)
          (start_step e w)
    x ← conclude go ext conclude_paused r
    return (outcome_of x)

  unfoldable pub resume_paused_loaded :
      ℕ → Context → WorkflowExecution → Result Workflow → M Outcome
  unfolding resume_paused_from
  resume_paused_loaded fuel ctx e (err x) = return (refused (wrap "failed to load workflow" x))
  resume_paused_loaded fuel ctx e (ok w) = resume_paused_from fuel w ctx e

  unfoldable pub resume_paused_execution : ℕ → Context → M Outcome
  unfolding resume_paused_loaded
  resume_paused_execution fuel ctx = do
    e ← get_execution
    elim (is_running e.status) [
      | false ↦ return (
          refused (
            msg (
              concat (
                "execution must be in running state to resume (current: "
                ∷ status_text e.status
                ∷ ")"
                ∷ []))))
      | true ↦ do
        loaded ← ask (λ n. ext.get_workflow_by_id n e.organization_id e.workflow_id)
        resume_paused_loaded fuel ctx e loaded
    ]
