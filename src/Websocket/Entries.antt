-- ===== src/Websocket/Entries.antt =====
-- The entries of the hub (internal/websocket/hub.go): a user's clients are that user's, open and
-- stand once.
use intelligent_workflows.Prelude.{
  ℕ, String, true, false, ◌≡◌, ◌≢◌, refl, subst, List, [], ◌∷◌, inl, inr, ◌==◌, lookup, insert,
  remove_key, member, All, Bool-cases, eq_iff, arith,
}
use mathlib.Core.Bool.{false≢true}
use intelligent_workflows.Websocket.Client.{Client}
use intelligent_workflows.Websocket.Hub.{is_member, clients_of}

abbrev pub NoRepeat : List ℕ → Type 0
NoRepeat [] = Unit
NoRepeat (n ∷ ns) = (is_member n ns ≡ false) × NoRepeat ns

abbrev pub keys : List (String × List ℕ) → List String
keys [] = []
keys (entry ∷ rest) = entry.0 ∷ keys rest

abbrev pub NoRepeatKeys : List (String × List ℕ) → Type 0
NoRepeatKeys [] = Unit
NoRepeatKeys (entry ∷ rest) = (member entry.0 (keys rest) ≡ false) × NoRepeatKeys rest

-- The clients of a list are open clients of the user, and each stands once.
abbrev pub IsOwn : (ℕ → Client) → String → List ℕ → Type 0
IsOwn objects user cs =
    ((n : ℕ)
      → is_member n cs ≡ true
      → ((objects n).user_id ≡ user) × ((objects n).is_closed ≡ false))
    × NoRepeat cs

abbrev pub IsEntry : (ℕ → Client) → String × List ℕ → Type 0
IsEntry objects entry = (entry.1 ≢ []) × IsOwn objects entry.0 entry.1

pub clients_of-IsOwn :
    (objects : ℕ → Client) (user : String) (clients : List (String × List ℕ))
    → All (IsEntry objects) clients
    → IsOwn objects user (clients_of user clients)
unfolding lookup
clients_of-IsOwn objects user [] h = (λ n m. elim (false≢true m) [ ], tt)
clients_of-IsOwn objects user (entry ∷ rest) (h, hs) = elim (Bool-cases (entry.0 == user)) [
  | inl e ↦
      rw (e, clients_of) (subst (λ k. IsOwn objects k entry.1) ((eq_iff entry.0 user).0 e) h.1)
  | inr e ↦ rw (e, clients_of) (clients_of-IsOwn objects user rest hs)
]

pub insert-IsEntry :
    (objects : ℕ → Client) (user : String) (cs : List ℕ) (clients : List (String × List ℕ))
    → IsEntry objects (user, cs)
    → All (IsEntry objects) clients
    → All (IsEntry objects) (insert user cs clients)
unfolding insert
insert-IsEntry objects user cs [] g h = (g, tt)
insert-IsEntry objects user cs (entry ∷ rest) g (h, hs) = elim (Bool-cases (entry.0 == user)) [
  | inl e ↦ rw (e, insert) (g, hs)
  | inr e ↦ rw (e, insert) (h, insert-IsEntry objects user cs rest g hs)
]

member-insert :
    (k user : String) (cs : List ℕ) (clients : List (String × List ℕ))
    → k == user ≡ false
    → member k (keys clients) ≡ false
    → member k (keys (insert user cs clients)) ≡ false
unfolding insert
member-insert k user cs [] e h = ground arith
member-insert k user cs (entry ∷ rest) e h = ground (arith, member-insert k user cs rest)

pub insert-NoRepeatKeys :
    (user : String) (cs : List ℕ) (clients : List (String × List ℕ))
    → NoRepeatKeys clients
    → NoRepeatKeys (insert user cs clients)
unfolding insert
insert-NoRepeatKeys user cs [] h = (refl, tt)
insert-NoRepeatKeys user cs (entry ∷ rest) (h, hs) = elim (Bool-cases (entry.0 == user)) [
  | inl e ↦
      rw (e, insert) (subst (λ k. member k (keys rest) ≡ false) ((eq_iff entry.0 user).0 e) h, hs)
  | inr e ↦
      rw (e, insert) (member-insert entry.0 user cs rest e h, insert-NoRepeatKeys user cs rest hs)
]

member-remove_key :
    (k user : String) (clients : List (String × List ℕ))
    → member k (keys clients) ≡ false
    → member k (keys (remove_key user clients)) ≡ false
unfolding remove_key
member-remove_key k user [] h = refl
member-remove_key k user (entry ∷ rest) h = ground (arith, member-remove_key k user rest)

pub remove_key-NoRepeatKeys :
    (user : String) (clients : List (String × List ℕ))
    → NoRepeatKeys clients
    → NoRepeatKeys (remove_key user clients)
unfolding remove_key
remove_key-NoRepeatKeys user [] h = tt
remove_key-NoRepeatKeys user (entry ∷ rest) (h, hs) = elim (Bool-cases (entry.0 == user)) [
  | inl e ↦ rw (e, remove_key) (remove_key-NoRepeatKeys user rest hs)
  | inr e ↦
      rw (e, remove_key)
        (member-remove_key entry.0 user rest h, remove_key-NoRepeatKeys user rest hs)
]
