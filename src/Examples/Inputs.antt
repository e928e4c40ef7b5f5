-- ===== src/Examples/Inputs.antt =====
-- A small workflow, an execution of it, and what the engine calls.
use intelligent_workflows.Prelude.{
  ℕ, zero, suc, String, true, false, List, [], ◌∷◌, none, some, ok, ltb,
}
use intelligent_workflows.Value.{pos, Value, string, int, object, Fields, empty, field, Go}
use intelligent_workflows.Models.Workflow.{
  WaitConfig, Condition, condition, no_conditions, more_conditions, StepInfo, Step, step,
  no_parallel, no_foreach, Workflow, RetryConfig,
}
use intelligent_workflows.Models.Execution.{WorkflowExecution, running, waiting}
use intelligent_workflows.Executor.State.{Ext, World, alive}
use intelligent_workflows.Executor.Policy.{second}

abbrev pub number_text : ℕ → String
number_text zero = "0"
number_text (suc n) = "many"

abbrev pub text_of : Value → String
text_of (string s) = s
text_of (int (pos n)) = number_text n
text_of _ = ""

abbrev pub go : Go
go = record {
  sprint = text_of;
  type_name = λ v. "string";
  float_lt = ltb;
  float_of_float32 = λ x. x;
  float_of_int = λ x. elim x [ pos n ↦ n | _ ↦ 0 ];
  float_of_uint = λ x. x;
  int64_of_float = pos;
  seconds_of = λ d. 0;
  duration_text = λ d. "30s";
  match_string = λ p s. ok true;
  parse_duration = λ s. ok (pos second);
}

abbrev pub plain_info : StepInfo
plain_info = record {
  id = "";
  type = "";
  rule_id = "";
  condition = none;
  action = none;
  on_true = "";
  on_false = "";
  execute = [];
  wait = none;
  retry = none;
  timeout = "";
  metadata = none;
  next = "";
}

abbrev pub is_new : Condition
is_new = condition "state" "eq" (string "new") no_conditions no_conditions

abbrev pub check_step : Step
check_step =
    step
      (record plain_info {
        id = "check";
        type = "condition";
        condition = some is_new;
        on_true = "accept";
      })
      no_parallel no_foreach

abbrev pub accept_step : Step
accept_step =
    step
      (record plain_info {
        id = "accept";
        type = "action";
        action = some (record { type = "allow"; reason = ""; metadata = none });
      })
      no_parallel no_foreach

abbrev pub two_steps : List Step
two_steps = check_step ∷ accept_step ∷ []

abbrev pub flow : Workflow
flow = record {
  id = 1;
  organization_id = 1;
  workflow_id = "orders";
  version = "1";
  name = "Orders";
  definition = record {
    trigger = record { type = "event"; event = "order.created"; cron = ""; payload = none };
    load = [];
    steps = two_steps;
    timeout = "";
  };
  enabled = true;
}

abbrev pub context : Fields
context = field "state" (string "new") (field "o" (object (field "t" (int (pos 1)) empty)) empty)

abbrev pub started : WorkflowExecution
started = record {
  id = 1;
  organization_id = 1;
  workflow_id = 1;
  execution_id = "exec_1";
  trigger_event = "order.created";
  trigger_payload = empty;
  context = some context;
  status = running;
  result = none;
  current_step_id = none;
  wait_state = none;
  started_at = 0;
  completed_at = none;
  duration_ms = none;
  error_message = none;
  metadata = empty;
  timeout_at = none;
  timeout_duration = none;
  paused_at = none;
  paused_reason = none;
  paused_step_id = none;
  next_step_id = none;
  resume_data = none;
  resume_count = 0;
  last_resumed_at = none;
}

abbrev pub waiting_one : WorkflowExecution
waiting_one = record started {
  status = waiting;
  current_step_id = some "check";
  wait_state =
      some (record { event = "order.paid"; timeout_at = none; on_timeout = ""; waiting_since = 0 });
}

-- A repository that takes every write, and a context that never ends.
abbrev pub ext : Ext
ext = record {
  now = λ n. n;
  new_id = λ n. n;
  id_text = number_text;
  ctx_err = λ c n. alive;
  update_execution = λ n e. none;
  create_step_execution = λ n s. none;
  update_step_execution = λ n s. none;
  get_by_rule_id = none;
  short_id = number_text;
  create_execution = λ n e. none;
  build_context = λ n f m. ok m;
  enrich_context = λ n m. some m;
  get_execution_by_id = λ n o i. ok waiting_one;
  get_workflow_by_id = λ n o i. ok flow;
  parse_id = λ s. some 0;
  reload_context = λ n w m. some m;
  resolve_variable = λ s m. string s;
  marshal = λ m. ok "";
  new_request = λ m u. none;
  http_do = λ n r. ok (200, ok "");
  contains = λ s t. false;
  replace_all = λ s t u. s;
  execution_context = λ n. 1;
  create_approval_request = none;
}

abbrev pub world : World
world = record {
  calls = 0;
  execution = started;
  saved = [];
  step_log = [];
  slept = [];
  broadcast = [];
}

abbrev pub hold : WaitConfig
hold = record { event = "order.paid"; timeout = ""; on_timeout = "" }

abbrev pub hold_info : StepInfo
hold_info = record plain_info { id = "hold"; type = "wait"; wait = some hold }

abbrev pub two_attempts : RetryConfig
two_attempts = record { max_attempts = pos 2; backoff = "linear"; retry_on = [] }

abbrev pub one : Value
one = int (pos 1)

abbrev pub word : Value
word = string "new"

abbrev pub is_small : Condition
is_small = condition "o.t" "lt" one no_conditions no_conditions

abbrev pub both : Condition
both =
    condition "" "" word (more_conditions is_new (more_conditions is_small no_conditions))
      no_conditions

abbrev pub either : Condition
either =
    condition "" "" word no_conditions
      (more_conditions is_new (more_conditions is_small no_conditions))
