-- ===== src/Executor/Resume/Waiting.antt =====
-- What a wait step leaves for `ResumeExecution` (`executeWaitStep` of internal/engine/executor.go).
use intelligent_workflows.Prelude.{◌≡◌, ◌∷◌, none, some}
use intelligent_workflows.Models.Workflow.{WaitConfig, StepInfo}
use intelligent_workflows.Models.Execution.{waiting}
use intelligent_workflows.Executor.State.{World}
use intelligent_workflows.Executor.Resume.{refusal}

-- The execution waits at the step for the event of the configuration, and is so saved.
abbrev pub IsSaved : StepInfo → WaitConfig → World → World → Type 0
IsSaved i c before after =
    (refusal c.event after.execution ≡ none)
    × (after.execution.status ≡ waiting)
    × (after.execution.current_step_id ≡ some i.id)
    × (after.saved ≡ after.execution ∷ before.saved)
