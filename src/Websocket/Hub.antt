-- ===== src/Websocket/Hub.antt =====
-- The hub (internal/websocket/hub.go). Clients are objects behind pointers: a client is a number, and
-- `objects` is what it points to. Publishing to Redis and statistics for logging are left out; what
-- Redis delivers goes into the same channel as what is broadcast here.
use intelligent_workflows.Prelude.{
  ℕ, ◌+◌, String, Bool, true, false, ◌||◌, List, [], ◌∷◌, ◌++◌, Option, none, some, ◌==◌,
  if◌then◌else◌, ltb, nat_eq, Result, ok, err, length, lookup, insert, remove_key, concat,
}
use intelligent_workflows.Websocket.Client.{Client, capacity, is_subscribed, matches_filters}

-- `message` is the outcome of ToJSON.
pub record BroadcastMessage : Type 0 where
  pub channel : String
  pub message : Result String
  pub workflow_id : String
  pub execution_id : String
  pub status : String
  pub user_id : String

-- `closing` are the clients on which a goroutine calls Close.
pub record Hub : Type 0 where
  pub clients : List (String × List ℕ)
  pub broadcast : List BroadcastMessage
  pub objects : ℕ → Client
  pub closing : List ℕ

abbrev pub is_member : ℕ → List ℕ → Bool
is_member n [] = false
is_member n (m ∷ ms) = nat_eq n m || is_member n ms

-- `clients[client] = true`
abbrev pub add_member : ℕ → List ℕ → List ℕ
add_member n ns = if is_member n ns then ns else n ∷ ns

-- `delete(clients, client)`
abbrev pub delete_member : ℕ → List ℕ → List ℕ
delete_member n [] = []
delete_member n (m ∷ ms) = if nat_eq n m then delete_member n ms else m ∷ delete_member n ms

abbrev pub set_object : ℕ → Client → (ℕ → Client) → ℕ → Client
set_object n c objects m = if nat_eq m n then c else objects m

-- The clients of a user, none where the user has no entry.
abbrev pub clients_of : String → List (String × List ℕ) → List ℕ
clients_of user clients = elim (lookup user clients) [ none ↦ [] | some cs ↦ cs ]

unfoldable pub register_client : ℕ → Hub → Hub
register_client n h =
    let user = (h.objects n).user_id in
    record h { clients = insert user (add_member n (clients_of user h.clients)) h.clients }

-- The entry of a user, gone where it is empty.
abbrev pub put_clients : String → List ℕ → List (String × List ℕ) → List (String × List ℕ)
put_clients user [] clients = remove_key user clients
put_clients user (c ∷ cs) clients = insert user (c ∷ cs) clients

-- `none` is the panic of closing a closed channel.
unfoldable pub unregister_client : ℕ → Hub → Option Hub
unregister_client n h =
    let c = h.objects n in
    if is_member n (clients_of c.user_id h.clients)
    then (if c.is_closed
        then none
        else some (record h {
          clients =
              put_clients c.user_id (delete_member n (clients_of c.user_id h.clients)) h.clients;
          objects = set_object n (record c { is_closed = true }) h.objects;
        }))
    else some h

unfoldable pub should_send_to_client : BroadcastMessage → Client → Bool
should_send_to_client bm c =
    if is_subscribed bm.channel c
    then matches_filters bm.channel bm.workflow_id bm.execution_id bm.status c
    else false

-- `none` is the panic of a send on a closed channel; a full channel closes the connection.
unfoldable pub send_to_client : String → ℕ → Hub → Option Hub
send_to_client text n h =
    let c = h.objects n in
    if c.is_closed
    then none
    else if ltb (length c.send) capacity
    then some
        (record h { objects = set_object n (record c { send = c.send ++ text ∷ [] }) h.objects })
    else some (record h { closing = n ∷ h.closing })

-- The loop over clients, with the test that each must pass.
unfoldable pub send_each : (Client → Bool) → String → List ℕ → Hub → Option Hub
send_each wanted text [] h = some h
send_each wanted text (n ∷ ns) h = elim (wanted (h.objects n)) [
  | false ↦ send_each wanted text ns h
  | true ↦ elim (send_to_client text n h) [ none ↦ none | some h' ↦ send_each wanted text ns h' ]
]

-- The clients of all users, in the order of the loops.
abbrev pub all_clients : List (String × List ℕ) → List ℕ
all_clients [] = []
all_clients (entry ∷ rest) = entry.1 ++ all_clients rest

abbrev pub everyone : Client → Bool
everyone c = true

unfoldable pub broadcast_encoded : BroadcastMessage → Result String → Hub → Option Hub
unfolding send_each should_send_to_client
broadcast_encoded bm (err e) h = some h
broadcast_encoded bm (ok text) h =
    if bm.user_id == ""
    then send_each (should_send_to_client bm) text (all_clients h.clients) h
    else send_each everyone text (clients_of bm.user_id h.clients) h

unfoldable pub broadcast_message : BroadcastMessage → Hub → Option Hub
unfolding broadcast_encoded
broadcast_message bm = broadcast_encoded bm bm.message

-- `Broadcast`, and what Redis delivers: a full channel drops the message.
unfoldable pub enqueue : BroadcastMessage → Hub → Hub
enqueue bm h =
    if ltb (length h.broadcast) capacity then record h { broadcast = h.broadcast ++ bm ∷ [] } else h

abbrev pub enqueue_all : List BroadcastMessage → Hub → Hub
enqueue_all [] h = h
enqueue_all (bm ∷ bms) h = enqueue_all bms (enqueue bm h)

abbrev pub event_on : Result String → String → String → String → String → BroadcastMessage
event_on message workflow execution status channel = record {
  channel = channel;
  message = message;
  workflow_id = workflow;
  execution_id = execution;
  status = status;
  user_id = "";
}

-- The first argument is the outcome of NewMessage, with that of ToJSON.
unfoldable pub broadcast_execution_event :
    Result (Result String) → String → String → String → Hub → Hub
unfolding enqueue
broadcast_execution_event (err e) workflow execution status h = h
broadcast_execution_event (ok message) workflow execution status h =
    let event = event_on message workflow execution status in
    enqueue_all
      (event "executions"
        ∷ event (concat ("executions:" ∷ execution ∷ []))
        ∷ event (concat ("workflows:" ∷ workflow ∷ []))
        ∷ [])
      h

unfoldable pub broadcast_step_event : Result (Result String) → String → String → Hub → Hub
unfolding enqueue
broadcast_step_event (err e) execution status h = h
broadcast_step_event (ok message) execution status h =
    enqueue (event_on message "" execution status (concat ("executions:" ∷ execution ∷ []))) h

unfoldable pub broadcast_approval_event :
    Result (Result String) → String → String → String → Hub → Hub
unfolding enqueue
broadcast_approval_event (err e) workflow execution status h = h
broadcast_approval_event (ok message) workflow execution status h =
    let event = event_on message workflow execution status in
    enqueue_all
      (event "approvals"
        ∷ event (concat ("executions:" ∷ execution ∷ []))
        ∷ event (concat ("workflows:" ∷ workflow ∷ []))
        ∷ [])
      h

unfoldable pub get_total_clients : List (String × List ℕ) → ℕ
get_total_clients [] = 0
get_total_clients (entry ∷ rest) = length entry.1 + get_total_clients rest

unfoldable pub get_user_client_count : String → Hub → ℕ
get_user_client_count user h = length (clients_of user h.clients)
