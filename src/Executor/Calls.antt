-- ===== src/Executor/Calls.antt =====
-- The handlers of the action executor that call out: webhooks and approval requests
-- (`executeWebhook` and `executeCreateApprovalRequest` of internal/engine/action_executor.go).
use intelligent_workflows.Prelude.{
  ℕ, ◌/◌, String, not, ◌&&◌, leb, ltb, nat_eq, Err, wrap, true, [], ◌∷◌, Option, none, some, ◌==◌,
  if◌then◌else◌, msg, Result, ok, err, concat,
}
use intelligent_workflows.Value.{
  ℤ, pos, null, int, put, get, Value, bool, string, int64, Fields, empty, field, Go,
}
use intelligent_workflows.Models.Workflow.{ExecuteAction}
use intelligent_workflows.Models.Approval.{ApprovalRequest}
use intelligent_workflows.Approval.Service.{approval_status_text}
use intelligent_workflows.Executor.State.{
  HttpRequest, ApprovalCall, Ext, M, ◌>>=◌, return, ask, time_now,
}
use intelligent_workflows.Executor.Interpolation.{
  interpolate_variables, get_context_value, variable_name,
}

-- `time.Now().Unix()`
abbrev pub unix : ℕ → Value
unix t = int64 (pos (t / 1000000000))

abbrev pub or_default : String → String → String
or_default default text = if text == "" then default else text

-- `action.Data[key].(string)`, empty where there is none
abbrev pub text_at : String → Option Fields → String
text_at key none = ""
text_at key (some m) = elim (get key m) [ some (string s) ↦ s | _ ↦ "" ]

abbrev pub encoded : Result String → Result (Option String)
encoded (err e) = err e
encoded (ok s) = ok (some s)

module _ (go : Go) (ext : Ext) where
  -- `json.Marshal` of the interpolated body, if there is one
  abbrev pub webhook_body : Option Fields → Fields → Result (Option String)
  webhook_body none context = ok none
  webhook_body (some m) context = encoded (ext.marshal (interpolate_variables m context))

  -- What follows the call; an answer of 400 or more is an error. The result that the Go function
  -- returns beside this error is left out: its caller, executeActions, replaces it.
  unfoldable pub webhook_response :
      ExecuteAction → String → Result (ℕ × Result String) → M (Result Fields)
  unfolding time_now
  webhook_response a method (err e) = return (err (wrap "webhook request failed" e))
  webhook_response a method (ok (status, err e)) = return (err (wrap "failed to read response" e))
  webhook_response a method (ok (status, ok text)) = do
    t ← time_now ext
    return (
        if leb 400 status
        then err
            (msg (concat ("webhook returned error status: " ∷ go.sprint (int (pos status)) ∷ [])))
        else ok (
            field "type" (string "webhook") (
              field "success" (bool (leb 200 status && ltb status 300)) (
                field "url" (string a.url) (
                  field "method" (string method) (
                    field "status_code" (int (pos status))
                      (field "response" (string text) (field "called_at" (unix t) empty))))))))

  -- The request, with its headers in the order in which they are set.
  abbrev pub webhook_request : ExecuteAction → String → Option String → ℕ → HttpRequest
  webhook_request a method body id = record {
    method = method;
    url = a.url;
    body = body;
    headers =
        ("Content-Type", "application/json")
        ∷ ("User-Agent", "IntelligentWorkflows/1.0")
        ∷ ("X-Request-ID", ext.id_text id)
        ∷ a.headers;
  }

  -- What follows the request being made, which may fail.
  unfoldable pub webhook_requested :
      ExecuteAction → String → Option String → Option Err → M (Result Fields)
  unfolding webhook_response
  webhook_requested a method body (some e) = return (err (wrap "failed to create request" e))
  webhook_requested a method body none = do
    id ← ask ext.new_id
    r ← ask (λ n. ext.http_do n (webhook_request a method body id))
    webhook_response a method r

  unfoldable pub webhook_encoded :
      ExecuteAction → String → Result (Option String) → M (Result Fields)
  unfolding webhook_requested
  webhook_encoded a method (err e) = return (err (wrap "failed to marshal request body" e))
  webhook_encoded a method (ok body) =
      webhook_requested a method body (ext.new_request method a.url)

  unfoldable pub execute_webhook : ExecuteAction → Fields → M (Result Fields)
  unfolding webhook_encoded interpolate_variables
  execute_webhook a context =
      if a.url == ""
      then return (err (msg "webhook URL is required"))
      else webhook_encoded a (or_default "POST" a.method) (webhook_body a.body context)

  -- A value that is not nil is printed in the place of the reference.
  abbrev pub printed : Value → String → String
  printed null text = text
  printed v text = go.sprint v

  abbrev pub referenced : Option String → String → Fields → String
  referenced none text context = text
  referenced (some name) text context = printed (get_context_value name context) text

  -- The entity ID, with `{{name}}` read as `${name}`.
  unfoldable pub approval_entity_id : String → Fields → String
  unfolding variable_name get_context_value
  approval_entity_id id context =
      if not (id == "") && ext.contains id "{{"
      then (let text = ext.replace_all (ext.replace_all id "{{" "${") "}}" "}" in
          referenced (variable_name text) text context)
      else id

  abbrev pub duration_or_nil : Result ℤ → Option ℤ
  duration_or_nil (ok d) = some d
  duration_or_nil (err e) = none

  abbrev pub approval_expiry : String → Option ℤ
  approval_expiry text = if text == "" then none else duration_or_nil (go.parse_duration text)

  abbrev pub approval_call : ExecuteAction → Fields → ℕ → ApprovalCall
  approval_call a context execution = record {
    execution_id = execution;
    entity_type = a.entity;
    entity_id = approval_entity_id a.entity_id context;
    approver_role = or_default "manager" (text_at "approver_role" a.payload);
    reason = or_default "Approval required by workflow" (text_at "reason" a.payload);
    expires_in = approval_expiry (text_at "expires_in" a.payload);
  }

  abbrev pub with_expiry : Option ℕ → Fields → Fields
  with_expiry none m = m
  with_expiry (some t) m = put "expires_at" (unix t) m

  abbrev pub approval_result : ApprovalCall → Result ApprovalRequest → Result Fields
  approval_result c (err e) = err (wrap "failed to create approval request" e)
  approval_result c (ok r) = ok (
      with_expiry r.expires_at (
        field "type" (string "create_approval_request") (
          field "success" (bool true) (
            field "approval_id" (string (ext.id_text r.id)) (
              field "request_id" (string r.request_id) (
                field "entity" (string c.entity_type) (
                  field "entity_id" (string c.entity_id) (
                    field "status" (string (approval_status_text r.status))
                      (field "requested_at" (unix r.requested_at) empty)))))))))

  -- What follows the checks.
  unfoldable pub approval_called :
      ExecuteAction → Fields → (ℕ → ApprovalCall → Result ApprovalRequest) → ℕ → M (Result Fields)
  unfolding approval_entity_id put get
  approval_called a context service execution =
      if nat_eq execution 0
      then return (err (msg "execution context not set"))
      else if a.entity == ""
      then return (err (msg "entity type is required for approval request"))
      else (do
        r ← ask (λ n. service n (approval_call a context execution))
        return (approval_result (approval_call a context execution) r))

  unfoldable pub execute_create_approval_request : ExecuteAction → Fields → M (Result Fields)
  unfolding approval_called
  execute_create_approval_request a context = elim ext.create_approval_request [
    | none ↦ return (err (msg "approval service not configured"))
    | some service ↦ do
      execution ← ask ext.execution_context
      approval_called a context service execution
  ]
