-- ===== src/Examples/Sockets.antt =====
-- The theorems about the hub, at a concrete state of it.
use intelligent_workflows.Prelude.{ℕ, true, ◌≡◌, ◌↔◌, refl, [], ◌∷◌, some, ok, lookup}
use intelligent_workflows.Websocket.Client.{Filters, Client, matches_filters}
use intelligent_workflows.Websocket.Hub.{
  BroadcastMessage, Hub, set_object, register_client, broadcast_message, unregister_client,
}
use intelligent_workflows.Websocket.Reachable.{
  Reachable, starts, connects, changes, IsSound, new_client, new_hub,
}
use intelligent_workflows.Websocket.Filtering.{Allows, matches_filters_iff}
use intelligent_workflows.Websocket.Safety.{hub-IsSafe}

abbrev failed_only : Filters
failed_only = record { workflow_ids = []; execution_ids = []; statuses = "failed" ∷ [] }

abbrev listener : Client
listener = record (new_client "ann") { subscriptions = ("executions", failed_only) ∷ [] }

abbrev connected : Hub
connected = register_client 1 (record (new_hub (λ n. new_client "bob")) {
  objects = set_object 1 (new_client "ann") (λ n. new_client "bob");
})

abbrev hub : Hub
hub = record connected { objects = set_object 1 listener connected.objects }

hub-Reachable : Reachable hub
unfolding register_client
hub-Reachable =
    changes 1 listener (connects 1 "ann" (starts (λ n. new_client "bob")) refl) refl refl

abbrev event : BroadcastMessage
event = record {
  channel = "executions";
  message = ok "text";
  workflow_id = "w";
  execution_id = "e";
  status = "failed";
  user_id = "";
}

hub-IsSafe_example :
    IsSound hub
    × ((n : ℕ) → (h' : Hub) × (unregister_client n hub ≡ some h'))
    × ((bm : BroadcastMessage) → (h' : Hub) × (broadcast_message bm hub ≡ some h'))
hub-IsSafe_example = hub-IsSafe hub hub-Reachable

matches_filters_iff_example : matches_filters "executions" "w" "e" "failed" listener ≡ true ↔ (
    (f : Filters) × (lookup "executions" listener.subscriptions ≡ some f)
    × Allows f.workflow_ids "w"
    × Allows f.execution_ids "e"
    × Allows f.statuses "failed")
matches_filters_iff_example = matches_filters_iff "executions" "w" "e" "failed" listener
