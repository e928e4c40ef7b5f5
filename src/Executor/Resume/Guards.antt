-- ===== src/Executor/Resume/Guards.antt =====
-- The checks of `ResumeExecution` (internal/engine/executor.go).
use intelligent_workflows.Prelude.{
  ℕ, suc, String, ◌≡◌, refl, inl, inr, true, Option, none, some, ◌==◌, Err, ok, arith, eq_iff,
  Bool-cases, Option-cases,
}
use intelligent_workflows.Value.{Fields, Go}
use intelligent_workflows.Models.Workflow.{Workflow}
use intelligent_workflows.Models.Execution.{ExecutionStatus, waiting, WaitState, WorkflowExecution}
use intelligent_workflows.Executor.State.{Ext, World, Context}
use intelligent_workflows.Executor.Resume.{
  refused, event_refusal, refusal, is_waiting, resume_loaded, organization_of, resume_execution,
}

-- The execution waits for the event.
abbrev pub IsAwaited : String → WorkflowExecution → Type 0
IsAwaited event e =
    (e.status ≡ waiting) × ((s : WaitState) × (e.wait_state ≡ some s) × (s.event ≡ event))

is_waiting-true : (s : ExecutionStatus) → is_waiting s ≡ true → s ≡ waiting
is_waiting-true s h = ground arith

event_refusal-none :
    (event : String) (o : Option WaitState)
    → event_refusal event o ≡ none
    → (s : WaitState) × (o ≡ some s) × (s.event ≡ event)
unfolding event_refusal
event_refusal-none event none h = cc
event_refusal-none event (some s) h = elim (Bool-cases (s.event == event)) [
  | inl same ↦ (s, refl, (eq_iff s.event event).0 same)
  | inr other ↦ cc (rw (other, event_refusal) at h)
]

refusal-IsAwaited :
    (event : String) (e : WorkflowExecution) → refusal event e ≡ none → IsAwaited event e
unfolding refusal
refusal-IsAwaited event e h = elim (Bool-cases (is_waiting e.status)) [
  | inl held ↦ (
    is_waiting-true e.status held,
    event_refusal-none event e.wait_state (rw (held, refusal) at h),
  )
  | inr other ↦ cc (rw (other, refusal) at h)
]

resume_loaded-refused :
    (go : Go) (ext : Ext) (fuel : ℕ) (flow : Option Workflow) (ctx : Context) (event : String)
    (resume_data : Option Fields) (e : WorkflowExecution) (x : Err) (w : World)
    → refusal event e ≡ some x
    → resume_loaded go ext fuel flow ctx event resume_data (ok e) w ≡ (refused x, w)
unfolding resume_loaded
resume_loaded-refused go ext fuel flow ctx event resume_data e x w h = rw (h, resume_loaded) refl

-- An execution that is loaded and does not wait for the event is refused, and nothing is changed but
-- that the execution was loaded: no write, no sleep, no broadcast.
pub resume_execution-refused :
    (go : Go) (ext : Ext) (fuel id : ℕ) (flow : Option Workflow) (ctx : Context) (event : String)
    (resume_data : Option Fields) (e : WorkflowExecution) (w : World)
    → ext.get_execution_by_id w.calls (organization_of go ext flow) id ≡ ok e
    → ¬ IsAwaited event e
    → (x : Err) × (resume_execution go ext fuel id flow ctx event resume_data w
        ≡ (refused x, record w { calls = suc w.calls }))
unfolding resume_execution
resume_execution-refused go ext fuel id flow ctx event resume_data e w loaded not_awaited =
    elim (Option-cases (refusal event e)) [
      | inl fine ↦ absurd (not_awaited (refusal-IsAwaited event e fine))
      | inr (x, stop) ↦ (
        x,
        rw (loaded, resume_execution)
            (resume_loaded-refused go ext fuel flow ctx event resume_data e x _ stop),
      )
    ]
