-- ===== src/Executor/Actions.antt =====
-- The action executor (internal/engine/action_executor.go): the dispatch on the types of actions, and
-- the handlers that call nothing. `Calls` has the two other handlers.
use intelligent_workflows.Prelude.{
  String, Bool, true, false, ◌||◌, List, [], ◌∷◌, Option, none, some, ◌==◌, if◌then◌else◌, msg,
  error_text, Result, ok, err, concat,
}
use intelligent_workflows.Value.{
  Value, bool, string, strings, object, objects, Objects, no_objects, more_objects, Fields, empty,
  field, Go,
}
use intelligent_workflows.Models.Workflow.{Action, ExecuteAction}
use intelligent_workflows.Executor.State.{Ext, M, ◌>>=◌, return, ask, time_now}
use intelligent_workflows.Executor.Calls.{unix, execute_webhook, execute_create_approval_request}

pub record ActionResult : Type 0 where
  pub action : String
  pub success : Bool
  pub reason : String
  pub payload : Fields  -- Data
  pub error : String

abbrev pub data_value : Option Fields → Value
data_value none = object empty
data_value (some m) = object m

module _ (go : Go) (ext : Ext) where
  execute_notify : ExecuteAction → M (Result Fields)
  unfolding time_now
  execute_notify a = do
    t ← time_now ext
    return (
        ok (
          field "type" (string "notify") (
            field "success" (bool true) (
              field "recipients" (strings a.recipients)
                (field "message" (string a.message) (field "sent_at" (unix t) empty))))))

  execute_create_record : ExecuteAction → M (Result Fields)
  unfolding time_now
  execute_create_record a = do
    id ← ask ext.new_id
    t ← time_now ext
    return (
        ok (
          field "type" (string "create_record") (
            field "success" (bool true) (
              field "entity" (string a.entity) (
                field "record_id" (string (ext.id_text id))
                  (field "data" (data_value a.payload) (field "created_at" (unix t) empty)))))))

  execute_update_record : ExecuteAction → M (Result Fields)
  unfolding time_now
  execute_update_record a = do
    t ← time_now ext
    return (
        ok (
          field "type" (string "update_record") (
            field "success" (bool true) (
              field "entity" (string a.entity) (
                field "entity_id" (string a.entity_id)
                  (field "data" (data_value a.payload) (field "updated_at" (unix t) empty)))))))

  -- The message where the action gives none.
  abbrev log_message : ExecuteAction → String
  log_message a =
      if a.message == ""
      then concat ("Log action executed: " ∷ go.sprint (data_value a.payload) ∷ [])
      else a.message

  execute_log : ExecuteAction → M (Result Fields)
  unfolding time_now
  execute_log a = do
    t ← time_now ext
    return (
        ok (
          field "type" (string "log") (
            field "success" (bool true)
              (field "message" (string (log_message a)) (field "logged_at" (unix t) empty)))))

  unfoldable pub execute_single_action : ExecuteAction → Fields → M (Result Fields)
  unfolding execute_notify execute_create_record execute_update_record execute_log execute_webhook
      execute_create_approval_request
  execute_single_action a context =
      if a.type == "notify"
      then execute_notify a
      else if (a.type == "webhook") || (a.type == "http_request")
      then execute_webhook go ext a context
      else if a.type == "create_record"
      then execute_create_record a
      else if a.type == "update_record"
      then execute_update_record a
      else if a.type == "log"
      then execute_log a
      else if a.type == "create_approval_request"
      then execute_create_approval_request go ext a context
      else return (err (msg (concat ("unsupported execute action type: " ∷ a.type ∷ []))))

  -- An error becomes an entry of the results.
  unfoldable pub result_entry : ExecuteAction → Result Fields → Fields
  unfolding error_text
  result_entry a (ok m) = m
  result_entry a (err e) =
      field "type" (string a.type)
        (field "success" (bool false) (field "error" (string (error_text e)) empty))

  -- The error that `executeActions` returns is always nil.
  unfoldable pub execute_actions : List ExecuteAction → Fields → M Objects
  unfolding execute_single_action result_entry
  execute_actions [] context = return no_objects
  execute_actions (a ∷ rest) context = do
    r ← execute_single_action a context
    results ← execute_actions rest context
    return (more_objects (result_entry a r) results)

  abbrev pub plain : String → String → ActionResult
  plain action reason = record {
    action = action;
    success = true;
    reason = reason;
    payload = empty;
    error = "";
  }

  unfoldable pub execute_listed :
      ActionResult → List ExecuteAction → Fields → M (Result ActionResult)
  unfolding execute_actions
  execute_listed r [] context = return (ok r)
  execute_listed r (a ∷ rest) context = do
    results ← execute_actions (a ∷ rest) context
    return (ok (record r { payload = field "execute_results" (objects results) empty }))

  -- The `switch` of `ExecuteAction`; the list is `step.Execute`.
  unfoldable pub execute_typed : Action → List ExecuteAction → Fields → M (Result ActionResult)
  unfolding execute_listed
  execute_typed a actions context =
      if a.type == "allow"
      then return (ok (plain a.type "Action allowed by workflow"))
      else if a.type == "block"
      then return
          (ok (plain a.type (if a.reason == "" then "Action blocked by workflow" else a.reason)))
      else if a.type == "execute"
      then execute_listed (plain a.type "") actions context
      else return (err (msg (concat ("unsupported action type: " ∷ a.type ∷ []))))

  unfoldable pub execute_action :
      Option Action → List ExecuteAction → Fields → M (Result ActionResult)
  unfolding execute_typed
  execute_action none actions context = return (err (msg "step has no action defined"))
  execute_action (some a) actions context = execute_typed a actions context
