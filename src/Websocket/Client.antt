-- ===== src/Websocket/Client.antt =====
-- A client of the hub (internal/websocket/client.go and the data of internal/websocket/message.go).
-- A channel is the list of what was sent and not yet received, with whether it is closed.
use intelligent_workflows.Prelude.{
  ℕ, String, Bool, true, false, not, ◌&&◌, List, [], ◌∷◌, ◌++◌, Option, none, some, if◌then◌else◌,
  ltb, is_some, Result, ok, err, length, lookup, insert, remove_key, member,
}

pub record Filters : Type 0 where
  pub workflow_ids : List String
  pub execution_ids : List String
  pub statuses : List String

pub record Client : Type 0 where
  pub user_id : String
  pub send : List String
  pub is_closed : Bool  -- close(client.send)
  pub subscriptions : List (String × Filters)

-- The types of the messages that a client sends.
pub data Request : Type 0 where
  ping : Request
  subscribe_request unsubscribe_request : Result (String × Filters) → Request
  unknown_request : Request

pub data Reply : Type 0 where
  pong : Reply
  error_reply : String → String → Reply
  subscribed unsubscribed : String → Reply

-- ParseMessage with the unmarshalling of the data, and the JSON of a reply.
pub record Codec : Type 0 where
  pub parse_message : String → Result Request
  pub reply_text : Reply → String

-- The capacity of `send` and of the broadcast channel.
abbrev pub capacity : ℕ
capacity = 256

unfoldable pub subscribe : String → Filters → Client → Client
subscribe channel filters c = record c { subscriptions = insert channel filters c.subscriptions }

unfoldable pub unsubscribe : String → Client → Client
unsubscribe channel c = record c { subscriptions = remove_key channel c.subscriptions }

unfoldable pub is_subscribed : String → Client → Bool
is_subscribed channel c = is_some (lookup channel c.subscriptions)

abbrev pub is_unset : List String → Bool
is_unset [] = true
is_unset (s ∷ ss) = false

abbrev pub no_filters : Filters → Bool
no_filters f = is_unset f.workflow_ids && (is_unset f.execution_ids && is_unset f.statuses)

-- A filter that is set and does not contain the value.
abbrev pub excludes : List String → String → Bool
excludes filter value = not (is_unset filter) && not (member value filter)

abbrev pub passes : Filters → String → String → String → Bool
passes f workflow execution status =
    if no_filters f
    then true
    else if excludes f.workflow_ids workflow
    then false
    else if excludes f.execution_ids execution
    then false
    else if excludes f.statuses status
    then false
    else true

-- What the subscription to a channel lets pass, if there is one.
abbrev pub admits : Option Filters → String → String → String → Bool
admits none workflow execution status = false
admits (some f) workflow execution status = passes f workflow execution status

unfoldable pub matches_filters : String → String → String → String → Client → Bool
matches_filters channel workflow execution status c =
    admits (lookup channel c.subscriptions) workflow execution status

-- `select { case c.send <- data: default: }`; `none` is the panic of a send on a closed channel.
unfoldable pub try_send : String → Client → Option Client
try_send text c =
    if c.is_closed
    then none
    else if ltb (length c.send) capacity
    then some (record c { send = c.send ++ text ∷ [] })
    else some c

module _ (codec : Codec) where
  abbrev pub reply : Reply → Client → Option Client
  reply r = try_send (codec.reply_text r)

  abbrev pub handle_request : Request → Client → Option Client
  handle_request ping c = reply pong c
  handle_request (subscribe_request (err e)) c =
      reply (error_reply "INVALID_SUBSCRIPTION" "Invalid subscription data") c
  handle_request (subscribe_request (ok (channel, filters))) c =
      reply (subscribed channel) (subscribe channel filters c)
  handle_request (unsubscribe_request (err e)) c =
      reply (error_reply "INVALID_SUBSCRIPTION" "Invalid subscription data") c
  handle_request (unsubscribe_request (ok (channel, filters))) c =
      reply (unsubscribed channel) (unsubscribe channel c)
  handle_request unknown_request c = some c

  unfoldable pub handle_message : String → Client → Option Client
  handle_message text c = elim (codec.parse_message text) [
    | err e ↦ reply (error_reply "PARSE_ERROR" "Invalid message format") c
    | ok r ↦ handle_request r c
  ]
