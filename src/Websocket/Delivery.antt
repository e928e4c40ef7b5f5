-- ===== src/Websocket/Delivery.antt =====
-- Whom a broadcast of the hub (internal/websocket/hub.go) reaches.
use intelligent_workflows.Prelude.{
  ℕ, String, Bool, true, false, ◌&&◌, ◌||◌, ◌≡◌, refl, sym, ap, ◌∙◌, subst, List, [], ◌∷◌, ◌++◌,
  some, inl, inr, if◌then◌else◌, ◌==◌, Bool-cases, arith, eq_iff, lookup, member, All, Result, ok,
  err,
}
use mathlib.Core.Bool.{false≢true}
use intelligent_workflows.Websocket.Client.{Client}
use intelligent_workflows.Websocket.Hub.{
  BroadcastMessage, Hub, is_member, clients_of, all_clients, should_send_to_client, everyone,
  broadcast_encoded, broadcast_message,
}
use intelligent_workflows.Websocket.Entries.{
  NoRepeat, keys, NoRepeatKeys, IsOwn, IsEntry, clients_of-IsOwn,
}
use intelligent_workflows.Websocket.Invariant.{is_member-append}
use intelligent_workflows.Websocket.Sending.{IsSent, pushed, send_each-IsSent}
use intelligent_workflows.Websocket.Reachable.{IsSound}

-- A client that is no other user's.
absent-IsOwn :
    (o : ℕ → Client) (m : ℕ) (user : String) (cs : List ℕ)
    → IsOwn o user cs
    → user == (o m).user_id ≡ false
    → is_member m cs ≡ false
absent-IsOwn o m user cs (own, once) e = elim (Bool-cases (is_member m cs)) [
  | inr a ↦ a
  | inl k ↦ elim (false≢true (sym e ∙ (eq_iff user (o m).user_id).1 (sym (own m k).0))) [ ]
]

absent_everywhere :
    (o : ℕ → Client) (m : ℕ) (es : List (String × List ℕ))
    → All (IsEntry o) es
    → member (o m).user_id (keys es) ≡ false
    → is_member m (all_clients es) ≡ false
absent_everywhere o m [] h k = refl
absent_everywhere o m (e ∷ es) ((ne, own), hs) k =
    let here =
      absent-IsOwn o m e.0 e.1 own
        (ground (arith, eq_iff e.0 (o m).user_id, eq_iff (o m).user_id e.0)) in
    let there = absent_everywhere o m es hs (ground arith) in
    is_member-append m e.1 (all_clients es) ∙ ground arith

or-false : (a b : Bool) → b ≡ false → (a || b) ≡ a
or-false true b e = refl
or-false false b e = e

and-false : (a b : Bool) → b ≡ false → (a && b) ≡ false
and-false true b e = e
and-false false b e = refl

-- A client stands in the list of all clients when it stands in that of its user.
is_member-all_clients :
    (o : ℕ → Client) (m : ℕ) (es : List (String × List ℕ))
    → All (IsEntry o) es
    → NoRepeatKeys es
    → is_member m (all_clients es) ≡ is_member m (clients_of (o m).user_id es)
unfolding lookup
is_member-all_clients o m [] h k = refl
is_member-all_clients o m (e ∷ es) ((ne, own), hs) (k, ks) =
    is_member-append m e.1 (all_clients es) ∙ elim (Bool-cases (e.0 == (o m).user_id)) [
      | inl q ↦
          let there =
            absent_everywhere o m es hs
              (subst (λ x. member x (keys es) ≡ false) ((eq_iff e.0 (o m).user_id).0 q) k) in
          rw (q, clients_of) (or-false _ _ there)
      | inr q ↦
          rw (q, clients_of)
            (ap (λ b. b || is_member m (all_clients es)) (absent-IsOwn o m e.0 e.1 own q)
              ∙ is_member-all_clients o m es hs ks)
    ]

NoRepeat-append :
    (xs ys : List ℕ)
    → NoRepeat xs
    → NoRepeat ys
    → ((n : ℕ) → is_member n xs ≡ true → is_member n ys ≡ false)
    → NoRepeat (xs ++ ys)
NoRepeat-append [] ys h k g = k
NoRepeat-append (x ∷ xs) ys (a, h) k g = (
  is_member-append x xs ys ∙ (or-false _ _ (g x (ground arith)) ∙ a),
  NoRepeat-append xs ys h k (λ n m. g n (ground arith)),
)

all_clients-NoRepeat :
    (o : ℕ → Client) (es : List (String × List ℕ))
    → All (IsEntry o) es
    → NoRepeatKeys es
    → NoRepeat (all_clients es)
all_clients-NoRepeat o [] h k = tt
all_clients-NoRepeat o (e ∷ es) ((ne, (own, once)), hs) (k, ks) =
    NoRepeat-append e.1 (all_clients es) once (all_clients-NoRepeat o es hs ks) (λ n m.
      absent_everywhere o n es hs (subst (λ x. member x (keys es) ≡ false) (sym (own n m).0) k))

all_clients-not_closed :
    (o : ℕ → Client) (es : List (String × List ℕ)) (n : ℕ)
    → All (IsEntry o) es
    → is_member n (all_clients es) ≡ true
    → (o n).is_closed ≡ false
all_clients-not_closed o [] n h m = elim (false≢true m) [ ]
all_clients-not_closed o (e ∷ es) n ((ne, (own, once)), hs) m =
    elim (Bool-cases (is_member n e.1)) [
      | inl k ↦ (own n k).1
      | inr k ↦ all_clients-not_closed o es n hs (
          sym (ap (λ b. b || is_member n (all_clients es)) k)
          ∙ (sym (is_member-append n e.1 (all_clients es)) ∙ m))
    ]

-- A client that is registered and, where the message names a user, is that user's, or else has asked
-- for the message.
abbrev pub receives : BroadcastMessage → Hub → ℕ → Bool
receives bm h m =
    let c = h.objects m in
    is_member m (clients_of c.user_id h.clients)
    && (if bm.user_id == "" then should_send_to_client bm c else bm.user_id == c.user_id)

-- A message that cannot be encoded changes nothing.
abbrev pub IsDelivered : BroadcastMessage → Result String → Hub → Hub → Type 0
IsDelivered bm (err e) h h' = h' ≡ h
IsDelivered bm (ok text) h h' = IsSent (receives bm h) text h h'

IsSent-same :
    (p q : ℕ → Bool) (text : String) (h h' : Hub)
    → ((m : ℕ) → p m ≡ q m)
    → IsSent p text h h'
    → IsSent q text h h'
IsSent-same p q text h h' g (c, s) =
    (c, λ m. s m ∙ ap (λ b. if b then pushed text (h.objects m) else h.objects m) (g m))

user-receives :
    (h : Hub) (user : String) (m : ℕ)
    → IsSound h
    → (is_member m (clients_of user h.clients) && true)
      ≡ (is_member m (clients_of (h.objects m).user_id h.clients) && user == (h.objects m).user_id)
user-receives h user m (es, ks) = elim (Bool-cases (user == (h.objects m).user_id)) [
  | inl q ↦
      let same = (eq_iff user (h.objects m).user_id).0 q in
      ap (λ x. is_member m (clients_of x h.clients) && true) same
      ∙ sym (ap (λ b. is_member m (clients_of (h.objects m).user_id h.clients) && b) q)
  | inr q ↦
      ap (λ b. b && true)
        (absent-IsOwn h.objects m user (clients_of user h.clients)
          (clients_of-IsOwn h.objects user h.clients es) q)
      ∙ sym (and-false _ _ q)
]

broadcast_encoded-IsDelivered :
    (bm : BroadcastMessage) (r : Result String) (h : Hub)
    → IsSound h
    → (h' : Hub) × (broadcast_encoded bm r h ≡ some h') × IsDelivered bm r h h'
unfolding broadcast_encoded
broadcast_encoded-IsDelivered bm (err e) h sound = (h, refl, refl)
broadcast_encoded-IsDelivered bm (ok text) h sound = elim (Bool-cases (bm.user_id == "")) [
  | inl e ↦
      let (es, ks) = sound in
      let (h', d, sent) =
        send_each-IsSent (should_send_to_client bm) text (all_clients h.clients) h
          (all_clients-NoRepeat h.objects h.clients es ks)
          (λ n. all_clients-not_closed h.objects h.clients n es) in
      (
        h',
        rw (e, broadcast_encoded) d,
        IsSent-same
            (λ m. is_member m (all_clients h.clients) && should_send_to_client bm (h.objects m))
            (receives bm h) text h h'
            (λ m.
              let c = h.objects m in
              ap (λ b. b && should_send_to_client bm c)
                (is_member-all_clients h.objects m h.clients es ks)
              ∙ sym (
                  ap
                    (λ b.
                      is_member m (clients_of c.user_id h.clients)
                      && (if b then should_send_to_client bm c else bm.user_id == c.user_id))
                    e))
            sent,
      )
  | inr e ↦
      let (own, once) = clients_of-IsOwn h.objects bm.user_id h.clients sound.0 in
      let (h', d, sent) =
        send_each-IsSent everyone text (clients_of bm.user_id h.clients) h once
          (λ n m. (own n m).1) in
      (
        h',
        rw (e, broadcast_encoded) d,
        IsSent-same (λ m. is_member m (clients_of bm.user_id h.clients) && true) (receives bm h)
            text h h'
            (λ m.
              let c = h.objects m in
              user-receives h bm.user_id m sound
              ∙ sym (
                  ap
                    (λ b.
                      is_member m (clients_of c.user_id h.clients)
                      && (if b then should_send_to_client bm c else bm.user_id == c.user_id))
                    e))
            sent,
      )
]

pub broadcast_message-IsDelivered :
    (bm : BroadcastMessage) (h : Hub)
    → IsSound h
    → (h' : Hub) × (broadcast_message bm h ≡ some h') × IsDelivered bm bm.message h h'
unfolding broadcast_message
broadcast_message-IsDelivered bm = broadcast_encoded-IsDelivered bm bm.message
