-- ===== src/Examples/Resumptions.antt =====
-- The theorems about the workflow resumer, at a concrete execution.
use intelligent_workflows.Prelude.{refl, true, none, some, ok}
use intelligent_workflows.Value.{empty}
use intelligent_workflows.Models.Execution.{paused_status, WorkflowExecution}
use intelligent_workflows.Executor.State.{Ext}
use intelligent_workflows.Resumer.{Services, pause_execution, resume_workflow, resume_execution}
use intelligent_workflows.Resumer.Pausing.{PausedAs, pause_execution-PausedAs}
use intelligent_workflows.Resumer.Resuming.{ResumedAs, resumption-ResumedAs}
use intelligent_workflows.Examples.Inputs.{go, ext, world, started}

abbrev services : Services
services = record {
  has_repository = true;
  has_engine = true;
  has_audit = true;
  time_text = λ t. "now";
}

-- A repository that has one execution.
abbrev holding : WorkflowExecution → Ext
holding e = record ext { get_execution_by_id = λ n o i. ok e }

abbrev paused_one : WorkflowExecution
paused_one = record started { status = paused_status; paused_at = some 0 }

pause_execution-PausedAs_example :
    PausedAs services
      (holding started)
      (ok started)
      "manual"
      none
      world
      (pause_execution services (holding started) 1 "manual" none world).0
      (pause_execution services (holding started) 1 "manual" none world).1
pause_execution-PausedAs_example =
    pause_execution-PausedAs services (holding started) 1 "manual" none world

resumption-ResumedAs_example :
    ResumedAs services
      (holding paused_one)
      (ok paused_one)
      world
      (resume_workflow services (holding paused_one) go 9 none 1 true world).0
      (resume_workflow services (holding paused_one) go 9 none 1 true world).1
    × ResumedAs services
        (holding paused_one)
        (ok paused_one)
        world
        (resume_execution services (holding paused_one) go 9 none 1 empty world).0
        (resume_execution services (holding paused_one) go 9 none 1 empty world).1
resumption-ResumedAs_example =
    resumption-ResumedAs services (holding paused_one) go 9 none 1 true empty world refl
