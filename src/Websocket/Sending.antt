-- ===== src/Websocket/Sending.antt =====
-- What the loops of the hub (internal/websocket/hub.go) over clients send.
use intelligent_workflows.Prelude.{
  ℕ, String, Bool, true, false, ◌&&◌, ◌||◌, ◌≡◌, refl, sym, ap, ◌∙◌, subst, List, [], ◌∷◌, ◌++◌,
  some, inl, inr, if◌then◌else◌, nat_eq, Bool-cases, arith, ltb, length,
}
use mathlib.Core.Bool.{false≢true}
use intelligent_workflows.Websocket.Client.{Client, capacity}
use intelligent_workflows.Websocket.Hub.{Hub, is_member, set_object, send_to_client, send_each}
use intelligent_workflows.Websocket.Entries.{NoRepeat}

-- A client with a text in its channel, if there is room.
abbrev pub pushed : String → Client → Client
pushed text c = if ltb (length c.send) capacity then record c { send = c.send ++ text ∷ [] } else c

-- The clients for which `receives` holds are sent the text, all others are as they were, and the
-- entries of the hub are the same.
abbrev pub IsSent : (ℕ → Bool) → String → Hub → Hub → Type 0
IsSent receives text h h' =
    (h'.clients ≡ h.clients)
    × ((m : ℕ) → h'.objects m ≡ (if receives m then pushed text (h.objects m) else h.objects m))

set_object-pushed :
    (text : String) (n : ℕ) (o : ℕ → Client) (c : Client) (m : ℕ)
    → c ≡ pushed text (o n)
    → set_object n c o m ≡ (if nat_eq m n then pushed text (o m) else o m)
set_object-pushed text n o c m e = elim (Bool-cases (nat_eq m n)) [
  | inl q ↦
      let same : n ≡ m = ground arith in
      ap (λ b. if b then c else o m) q
      ∙ (e ∙ ap (λ x. pushed text (o x)) same)
      ∙ sym (ap (λ b. if b then pushed text (o m) else o m) q)
  | inr q ↦
      ap (λ b. if b then c else o m) q ∙ sym (ap (λ b. if b then pushed text (o m) else o m) q)
]

full-pushed :
    (text : String) (n : ℕ) (o : ℕ → Client) (m : ℕ)
    → o n ≡ pushed text (o n)
    → o m ≡ (if nat_eq m n then pushed text (o m) else o m)
full-pushed text n o m e = elim (Bool-cases (nat_eq m n)) [
  | inl q ↦
      let same : n ≡ m = ground arith in
      subst (λ x. o x ≡ pushed text (o x)) same e
      ∙ sym (ap (λ b. if b then pushed text (o m) else o m) q)
  | inr q ↦ sym (ap (λ b. if b then pushed text (o m) else o m) q)
]

-- One open client.
send_to_client-IsSent :
    (text : String) (n : ℕ) (h : Hub)
    → (h.objects n).is_closed ≡ false
    → (h' : Hub) × (send_to_client text n h ≡ some h') × IsSent (λ m. nat_eq m n) text h h'
unfolding send_to_client
send_to_client-IsSent text n h open' =
    let c = h.objects n in
    let c' = record c { send = c.send ++ text ∷ [] } in
    elim (Bool-cases (ltb (length c.send) capacity)) [
      | inl e ↦ (
        record h { objects = set_object n c' h.objects },
        rw (open', e, send_to_client) refl,
        (
          refl,
          λ m. set_object-pushed text n h.objects c' m (sym (ap (λ b. if b then c' else c) e)),
        ),
      )
      | inr e ↦ (
        record h { closing = n ∷ h.closing },
        rw (open', e, send_to_client) refl,
        (refl, λ m. full-pushed text n h.objects m (sym (ap (λ b. if b then c' else c) e))),
      )
    ]

-- Two sendings, one after the other, of which a client gets at most one.
sent-twice :
    (wanted : Client → Bool) (text : String) (x x' x'' : Client) (first later : Bool)
    → (first ≡ true → (later ≡ false) × (wanted x ≡ true))
    → x' ≡ (if first then pushed text x else x)
    → x'' ≡ (if later && wanted x' then pushed text x' else x')
    → x'' ≡ (if (first || later) && wanted x then pushed text x else x)
sent-twice wanted text x x' x'' true true g e e' = elim (false≢true (sym (g refl).0)) [ ]
sent-twice wanted text x x' x'' true false g e e' =
    e' ∙ (e ∙ sym (ap (λ b. if b then pushed text x else x) (g refl).1))
sent-twice wanted text x x' x'' false later g e e' =
    subst (λ y. x'' ≡ (if later && wanted y then pushed text y else y)) e e'

IsSent-step :
    (wanted : Client → Bool) (text : String) (n : ℕ) (ns : List ℕ) (h h' h'' : Hub)
    → is_member n ns ≡ false
    → wanted (h.objects n) ≡ true
    → IsSent (λ m. nat_eq m n) text h h'
    → IsSent (λ m. is_member m ns && wanted (h'.objects m)) text h' h''
    → IsSent (λ m. is_member m (n ∷ ns) && wanted (h.objects m)) text h h''
IsSent-step wanted text n ns h h' h'' fresh want (c, s) (c', s') = (
  c' ∙ c,
  λ m.
      sent-twice wanted text (h.objects m) (h'.objects m) (h''.objects m) (nat_eq m n)
        (is_member m ns)
        (λ q.
          let same : n ≡ m = ground arith in
          (
            subst (λ x. is_member x ns ≡ false) same fresh,
            subst (λ x. wanted (h.objects x) ≡ true) same want,
          ))
        (s m) (s' m),
)

skipped-test :
    (first later want : Bool)
    → (first ≡ true → want ≡ false)
    → (later && want) ≡ ((first || later) && want)
skipped-test false later want g = refl
skipped-test true true want g = refl
skipped-test true false want g = sym (g refl)

-- Clients after the first one are not changed by the sending to it.
unsent-same :
    (text : String) (n m : ℕ) (ns : List ℕ) (h h' : Hub)
    → is_member n ns ≡ false
    → is_member m ns ≡ true
    → IsSent (λ x. nat_eq x n) text h h'
    → h'.objects m ≡ h.objects m
unsent-same text n m ns h h' fresh k (c, s) = elim (Bool-cases (nat_eq m n)) [
  | inl q ↦
      let same : m ≡ n = ground arith in
      elim (false≢true (sym fresh ∙ subst (λ x. is_member x ns ≡ true) same k)) [ ]
  | inr q ↦ s m ∙ ap (λ b. if b then pushed text (h.objects m) else h.objects m) q
]

-- The loop, over open clients of which each stands once in the list.
pub send_each-IsSent :
    (wanted : Client → Bool) (text : String) (ns : List ℕ) (h : Hub)
    → NoRepeat ns
    → ((n : ℕ) → is_member n ns ≡ true → (h.objects n).is_closed ≡ false)
    → (h' : Hub) × (send_each wanted text ns h ≡ some h')
      × IsSent (λ m. is_member m ns && wanted (h.objects m)) text h h'
unfolding send_each
send_each-IsSent wanted text [] h once open' = (h, refl, (refl, λ m. refl))
send_each-IsSent wanted text (n ∷ ns) h (fresh, once) open' =
    elim (Bool-cases (wanted (h.objects n))) [
      | inr e ↦
          let (h', d, (c, s)) =
            send_each-IsSent wanted text ns h once (λ m k. open' m (ground arith)) in
          (
            h',
            rw (e, send_each) d,
            (
              c,
              λ m.
                  s m
                  ∙ ap (λ b. if b then pushed text (h.objects m) else h.objects m)
                      (skipped-test (nat_eq m n) (is_member m ns) (wanted (h.objects m)) (λ q.
                        let same : n ≡ m = ground arith in
                        subst (λ x. wanted (h.objects x) ≡ false) same e)),
            ),
          )
      | inl e ↦
          let (h', d, sent) = send_to_client-IsSent text n h (open' n (ground arith)) in
          let (h'', d', sent') = send_each-IsSent wanted text ns h' once (λ m k.
            ap (λ x. x.is_closed) (unsent-same text n m ns h h' fresh k sent)
            ∙ open' m (ground arith)) in
          (h'', rw (e, d, send_each) d', IsSent-step wanted text n ns h h' h'' fresh e sent sent')
    ]
