-- ===== src/Websocket/Safety.antt =====
-- The channels of the clients that the hub (internal/websocket/hub.go) sends on and closes.
use intelligent_workflows.Prelude.{
  ℕ, String, Bool, true, false, ◌≡◌, refl, sym, ap, ◌∙◌, subst, some, Result, ok, err, some_inj,
  if◌then◌else◌, All, ltb, length, Bool-cases, nat_eq, arith, inl, inr,
}
use intelligent_workflows.Websocket.Client.{capacity, Client}
use intelligent_workflows.Websocket.Hub.{
  BroadcastMessage, Hub, set_object, unregister_client, broadcast_message, enqueue,
}
use intelligent_workflows.Websocket.Entries.{IsEntry, NoRepeatKeys}
use intelligent_workflows.Websocket.Invariant.{IsSame, IsSame-entries, IsEntry-fresh}
use intelligent_workflows.Websocket.Sending.{pushed}
use intelligent_workflows.Websocket.Delivery.{IsDelivered, receives, broadcast_message-IsDelivered}
use intelligent_workflows.Websocket.Reachable.{
  Reachable, starts, connects, unregisters, broadcasts, queues, takes, changes, IsSound, new_client,
  set_object-IsSame, register_client-IsSound, unregister_client-IsSound,
}

either-same :
    (b : Bool) (c d : Client)
    → (d.user_id ≡ c.user_id) × (d.is_closed ≡ c.is_closed)
    → ((if b then d else c).user_id ≡ c.user_id) × ((if b then d else c).is_closed ≡ c.is_closed)
either-same true c d h = h
either-same false c d h = (refl, refl)

pushed-same :
    (text : String) (b : Bool) (c : Client)
    → ((if b then pushed text c else c).user_id ≡ c.user_id)
      × ((if b then pushed text c else c).is_closed ≡ c.is_closed)
pushed-same text b c = either-same b c (pushed text c) (either-same _ c _ (refl, refl))

IsDelivered-IsSound :
    (bm : BroadcastMessage) (r : Result String) (h h' : Hub)
    → IsDelivered bm r h h'
    → IsSound h
    → IsSound h'
IsDelivered-IsSound bm (err e) h h' d s = subst IsSound (sym d) s
IsDelivered-IsSound bm (ok text) h h' (c, sent) (es, ks) =
    let same : IsSame h.objects h'.objects = λ m.
      subst (λ x. (x.user_id ≡ (h.objects m).user_id) × (x.is_closed ≡ (h.objects m).is_closed))
        (sym (sent m)) (pushed-same text (receives bm h m) (h.objects m)) in
    (
      subst (All (IsEntry h'.objects)) (sym c)
          (IsSame-entries h.objects h'.objects h.clients same es),
      subst NoRepeatKeys (sym c) ks,
    )

nat_eq_refl : (n : ℕ) → nat_eq n n ≡ true
nat_eq_refl n = ground arith

pub Reachable-IsSound : (h : Hub) → Reachable h → IsSound h
unfolding enqueue
Reachable-IsSound h (starts objects) = (tt, tt)
Reachable-IsSound h (connects {h = h₀} n user r fresh) =
    let (es, ks) = Reachable-IsSound h₀ r in
    let o = set_object n (new_client user) h₀.objects in
    register_client-IsSound n (record h₀ { objects = o })
      (ap (λ b. (if b then new_client user else h₀.objects n).is_closed) (nat_eq_refl n))
      (IsEntry-fresh h₀.objects n (new_client user) h₀.clients fresh es, ks)
Reachable-IsSound h (unregisters {h = h₀} n r e) =
    let (h', e', s) = unregister_client-IsSound n h₀ (Reachable-IsSound h₀ r) in
    subst IsSound (some_inj (sym e' ∙ e)) s
Reachable-IsSound h (broadcasts {h = h₀} bm r e) =
    let s = Reachable-IsSound h₀ r in
    let (h', e', d) = broadcast_message-IsDelivered bm h₀ s in
    subst IsSound (some_inj (sym e' ∙ e)) (IsDelivered-IsSound bm bm.message h₀ h' d s)
Reachable-IsSound h (queues {h = h₀} bm r) =
    elim (Bool-cases (ltb (length h₀.broadcast) capacity)) [
      | inl e ↦ rw (e, enqueue) (Reachable-IsSound h₀ r)
      | inr e ↦ rw (e, enqueue) (Reachable-IsSound h₀ r)
    ]
Reachable-IsSound h (takes {h = h₀} bms r) = Reachable-IsSound h₀ r
Reachable-IsSound h (changes {h = h₀} n c r u k) =
    let (es, ks) = Reachable-IsSound h₀ r in
    (
      IsSame-entries h₀.objects (set_object n c h₀.objects) h₀.clients
          (set_object-IsSame h₀.objects n c u k) es,
      ks,
    )

-- In every state that the hub reaches, whatever clients connect, are unregistered and change their
-- subscriptions, and whatever is broadcast: each user has at most one entry; an entry holds clients of
-- its user only, at least one and none twice; and the channel of each is open. So an unregistration
-- closes no channel twice, and a broadcast sends on no closed channel: neither panics.
pub hub-IsSafe :
    (h : Hub)
    → Reachable h
    → IsSound h
      × ((n : ℕ) → (h' : Hub) × (unregister_client n h ≡ some h'))
      × ((bm : BroadcastMessage) → (h' : Hub) × (broadcast_message bm h ≡ some h'))
hub-IsSafe h r =
    let s = Reachable-IsSound h r in
    (
      s,
      λ n. let (h', e, s') = unregister_client-IsSound n h s in (h', e),
      λ bm. let (h', e, d) = broadcast_message-IsDelivered bm h s in (h', e),
    )
