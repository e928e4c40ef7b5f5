-- ===== src/Websocket/Reachable.antt =====
-- The states that the hub (internal/websocket/hub.go) reaches, with clients that connect, send
-- requests and are served (internal/websocket/client.go, internal/websocket/handler.go).
use intelligent_workflows.Prelude.{
  ℕ, String, true, false, ◌≡◌, refl, sym, ap, subst, List, [], some, inl, inr, if◌then◌else◌,
  nat_eq, All, Bool-cases, arith,
}
use intelligent_workflows.Websocket.Client.{Client}
use intelligent_workflows.Websocket.Hub.{
  BroadcastMessage, Hub, is_member, set_object, clients_of, put_clients, all_clients,
  register_client, unregister_client, delete_member, broadcast_message, enqueue,
}
use intelligent_workflows.Websocket.Entries.{
  NoRepeatKeys, IsEntry, clients_of-IsOwn, insert-IsEntry, insert-NoRepeatKeys,
}
use intelligent_workflows.Websocket.Invariant.{
  IsSame, set_object-other, add_member-IsEntry, delete_member-IsOwn, put_clients-IsEntry,
}

-- What `NewClient` makes.
abbrev pub new_client : String → Client
new_client user = record { user_id = user; send = []; is_closed = false; subscriptions = [] }

abbrev pub new_hub : (ℕ → Client) → Hub
new_hub objects = record { clients = []; broadcast = []; objects = objects; closing = [] }

-- A new client that is registered; then any client may be unregistered, any message be broadcast, and
-- a client may change all but its user and whether its channel is closed: its subscriptions, and what
-- is in its channel.
pub data Reachable : Hub → Type 0 where
  starts : (objects : ℕ → Client) → Reachable (new_hub objects)
  connects :
      {h : Hub} (n : ℕ) (user : String)
      → Reachable h
      → is_member n (all_clients h.clients) ≡ false
      → Reachable
          (register_client n (record h { objects = set_object n (new_client user) h.objects }))
  unregisters : {h h' : Hub} (n : ℕ) → Reachable h → unregister_client n h ≡ some h' → Reachable h'
  broadcasts :
      {h h' : Hub} (bm : BroadcastMessage)
      → Reachable h
      → broadcast_message bm h ≡ some h'
      → Reachable h'
  queues : {h : Hub} (bm : BroadcastMessage) → Reachable h → Reachable (enqueue bm h)
  takes :
      {h : Hub} (bms : List BroadcastMessage)
      → Reachable h
      → Reachable (record h { broadcast = bms })
  changes :
      {h : Hub} (n : ℕ) (c : Client)
      → Reachable h
      → c.user_id ≡ (h.objects n).user_id
      → c.is_closed ≡ (h.objects n).is_closed
      → Reachable (record h { objects = set_object n c h.objects })

-- Each user has one entry, which is not empty; its clients are that user's, their channels are open,
-- and each stands in it once.
abbrev pub IsSound : Hub → Type 0
IsSound h = All (IsEntry h.objects) h.clients × NoRepeatKeys h.clients

pub set_object-IsSame :
    (o : ℕ → Client) (n : ℕ) (c : Client)
    → c.user_id ≡ (o n).user_id
    → c.is_closed ≡ (o n).is_closed
    → IsSame o (set_object n c o)
set_object-IsSame o n c u k m = elim (Bool-cases (nat_eq m n)) [
  | inl e ↦
      let q : n ≡ m = ground arith in
      subst (λ x. (x.user_id ≡ (o m).user_id) × (x.is_closed ≡ (o m).is_closed))
        (sym (ap (λ b. if b then c else o m) e))
        (subst (λ x. (c.user_id ≡ (o x).user_id) × (c.is_closed ≡ (o x).is_closed)) q (u, k))
  | inr e ↦
      subst (λ x. (x.user_id ≡ (o m).user_id) × (x.is_closed ≡ (o m).is_closed))
        (sym (set_object-other o n m c e)) (refl, refl)
]

pub register_client-IsSound :
    (n : ℕ) (h : Hub) → (h.objects n).is_closed ≡ false → IsSound h → IsSound (register_client n h)
unfolding register_client
register_client-IsSound n h open' (es, ks) =
    let user = (h.objects n).user_id in
    let own = clients_of-IsOwn h.objects user h.clients es in
    (
      insert-IsEntry h.objects user _ h.clients
          (add_member-IsEntry h.objects n user (clients_of user h.clients) refl open' own) es,
      insert-NoRepeatKeys user _ h.clients ks,
    )

-- An unregistration does not panic.
pub unregister_client-IsSound :
    (n : ℕ) (h : Hub) → IsSound h → (h' : Hub) × (unregister_client n h ≡ some h') × IsSound h'
unfolding unregister_client
unregister_client-IsSound n h (es, ks) =
    let c = h.objects n in
    let cs = clients_of c.user_id h.clients in
    let own = clients_of-IsOwn h.objects c.user_id h.clients es in
    elim (Bool-cases (is_member n cs)) [
      | inr e ↦ (h, rw (e, unregister_client) refl, (es, ks))
      | inl e ↦
          let closed = record c { is_closed = true } in
          let open' = (own.0 n e).1 in
          (
            record h {
              clients = put_clients c.user_id (delete_member n cs) h.clients;
              objects = set_object n closed h.objects;
            },
            rw (e, open', unregister_client) refl,
            put_clients-IsEntry h.objects n closed (delete_member n cs) h.clients
                (delete_member-IsOwn h.objects n closed c.user_id cs own) es ks,
          )
    ]
