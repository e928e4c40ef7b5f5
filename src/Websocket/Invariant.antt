-- ===== src/Websocket/Invariant.antt =====
-- What the hub (internal/websocket/hub.go) keeps of its entries when clients come and go.
use intelligent_workflows.Prelude.{
  ℕ, String, true, false, ◌||◌, ◌≡◌, ◌≢◌, refl, sym, ap, ◌∙◌, subst, List, [], ◌∷◌, ◌++◌, inl, inr,
  ◌==◌, if◌then◌else◌, nat_eq, insert, remove_key, member, All, Bool-cases, eq_iff, arith,
}
use mathlib.Core.Bool.{false≢true}
use intelligent_workflows.Websocket.Client.{Client}
use intelligent_workflows.Websocket.Hub.{
  is_member, add_member, delete_member, set_object, put_clients, all_clients,
}
use intelligent_workflows.Websocket.Entries.{
  NoRepeat, keys, NoRepeatKeys, IsOwn, IsEntry, insert-NoRepeatKeys, remove_key-NoRepeatKeys,
}

-- The objects have the same users, and the same channels are closed.
abbrev pub IsSame : (ℕ → Client) → (ℕ → Client) → Type 0
IsSame o o' = (n : ℕ) → ((o' n).user_id ≡ (o n).user_id) × ((o' n).is_closed ≡ (o n).is_closed)

pub IsSame-entries :
    (o o' : ℕ → Client) (es : List (String × List ℕ))
    → IsSame o o'
    → All (IsEntry o) es
    → All (IsEntry o') es
IsSame-entries o o' [] s h = tt
IsSame-entries o o' (e ∷ es) s ((ne, (own, once)), hs) = (
  (ne, (λ n m. ((s n).0 ∙ (own n m).0, (s n).1 ∙ (own n m).1), once)),
  IsSame-entries o o' es s hs,
)

pub set_object-other :
    (o : ℕ → Client) (n m : ℕ) (c : Client) → nat_eq m n ≡ false → set_object n c o m ≡ o m
set_object-other o n m c e = ap (λ b. if b then c else o m) e

-- A client is only changed where it is not in the list.
IsOwn-absent :
    (o : ℕ → Client) (n : ℕ) (c : Client) (user : String) (cs : List ℕ)
    → is_member n cs ≡ false
    → IsOwn o user cs
    → IsOwn (set_object n c o) user cs
IsOwn-absent o n c user cs a (own, once) = (
  λ m k. elim (Bool-cases (nat_eq m n)) [
    | inl e ↦
        let q : m ≡ n = ground arith in
        elim (false≢true (sym a ∙ subst (λ x. is_member x cs ≡ true) q k)) [ ]
    | inr e ↦
        subst (λ x. (x.user_id ≡ user) × (x.is_closed ≡ false)) (sym (set_object-other o n m c e))
          (own m k)
  ],
  once,
)

pub is_member-append :
    (n : ℕ) (xs ys : List ℕ) → is_member n (xs ++ ys) ≡ (is_member n xs || is_member n ys)
is_member-append n [] ys = refl
is_member-append n (x ∷ xs) ys = ground (arith, is_member-append n xs ys)

-- A client that no user has may be anything.
pub IsEntry-fresh :
    (o : ℕ → Client) (n : ℕ) (c : Client) (es : List (String × List ℕ))
    → is_member n (all_clients es) ≡ false
    → All (IsEntry o) es
    → All (IsEntry (set_object n c o)) es
IsEntry-fresh o n c [] a h = tt
IsEntry-fresh o n c (e ∷ es) a ((ne, h), hs) =
    let q = is_member-append n e.1 (all_clients es) in
    ((ne, IsOwn-absent o n c e.0 e.1 (ground arith) h), IsEntry-fresh o n c es (ground arith) hs)

member-ne-nil : (n : ℕ) (cs : List ℕ) → is_member n cs ≡ true → cs ≢ []
member-ne-nil n [] h = elim (false≢true h) [ ]
member-ne-nil n (c ∷ cs) h = λ e. cc

pub add_member-IsEntry :
    (o : ℕ → Client) (n : ℕ) (user : String) (cs : List ℕ)
    → (o n).user_id ≡ user
    → (o n).is_closed ≡ false
    → IsOwn o user cs
    → IsEntry o (user, add_member n cs)
add_member-IsEntry o n user cs u c (own, once) = elim (Bool-cases (is_member n cs)) [
  | inl e ↦ rw (e) (member-ne-nil n cs e, (own, once))
  | inr e ↦ rw (e) (
    λ q. cc,
    (
      λ m k. elim (Bool-cases (nat_eq m n)) [
        | inl q ↦
            let same : n ≡ m = ground arith in
            subst (λ x. ((o x).user_id ≡ user) × ((o x).is_closed ≡ false)) same (u, c)
        | inr q ↦ own m (ground arith)
      ],
      (e, once),
    ),
  )
]

is_member-delete :
    (m n : ℕ) (cs : List ℕ)
    → is_member m (delete_member n cs) ≡ true
    → (nat_eq m n ≡ false) × (is_member m cs ≡ true)
is_member-delete m n [] h = elim (false≢true h) [ ]
is_member-delete m n (c ∷ cs) h = ground (arith, is_member-delete m n cs)

absent-delete :
    (m n : ℕ) (cs : List ℕ) → is_member m cs ≡ false → is_member m (delete_member n cs) ≡ false
absent-delete m n [] h = refl
absent-delete m n (c ∷ cs) h = ground (arith, absent-delete m n cs)

NoRepeat-delete : (n : ℕ) (cs : List ℕ) → NoRepeat cs → NoRepeat (delete_member n cs)
NoRepeat-delete n [] h = tt
NoRepeat-delete n (c ∷ cs) (a, h) = elim (Bool-cases (nat_eq n c)) [
  | inl e ↦ rw (e, delete_member) (NoRepeat-delete n cs h)
  | inr e ↦ rw (e, delete_member) (absent-delete c n cs a, NoRepeat-delete n cs h)
]

-- The list of a user without a client, which may then be changed.
pub delete_member-IsOwn :
    (o : ℕ → Client) (n : ℕ) (c : Client) (user : String) (cs : List ℕ)
    → IsOwn o user cs
    → IsOwn (set_object n c o) user (delete_member n cs)
delete_member-IsOwn o n c user cs (own, once) = (
  λ m k.
      let (other, k') = is_member-delete m n cs k in
      subst (λ x. (x.user_id ≡ user) × (x.is_closed ≡ false)) (sym (set_object-other o n m c other))
        (own m k'),
  NoRepeat-delete n cs once,
)

-- The clients of another user are not touched.
IsEntry-other :
    (o : ℕ → Client) (n : ℕ) (c : Client) (entry : String × List ℕ)
    → entry.0 == (o n).user_id ≡ false
    → IsEntry o entry
    → IsEntry (set_object n c o) entry
IsEntry-other o n c entry e (ne, (own, once)) = (
  ne,
  IsOwn-absent o n c entry.0 entry.1
      (elim (Bool-cases (is_member n entry.1)) [
        | inr a ↦ a
        | inl k ↦
            let (user, open') = own n k in
            elim (false≢true (sym e ∙ (eq_iff entry.0 (o n).user_id).1 (sym user))) [ ]
      ])
      (own, once),
)

remove_key-IsEntry :
    (o : ℕ → Client) (n : ℕ) (c : Client) (es : List (String × List ℕ))
    → All (IsEntry o) es
    → All (IsEntry (set_object n c o)) (remove_key (o n).user_id es)
unfolding remove_key
remove_key-IsEntry o n c [] h = tt
remove_key-IsEntry o n c (e ∷ es) (h, hs) = elim (Bool-cases (e.0 == (o n).user_id)) [
  | inl q ↦ rw (q, remove_key) (remove_key-IsEntry o n c es hs)
  | inr q ↦ rw (q, remove_key) (IsEntry-other o n c e q h, remove_key-IsEntry o n c es hs)
]

-- Entries of other users.
absent-IsEntry :
    (o : ℕ → Client) (n : ℕ) (c : Client) (es : List (String × List ℕ))
    → member (o n).user_id (keys es) ≡ false
    → All (IsEntry o) es
    → All (IsEntry (set_object n c o)) es
absent-IsEntry o n c [] a h = tt
absent-IsEntry o n c (e ∷ es) a (h, hs) = (
  IsEntry-other o n c e (ground (arith, eq_iff e.0 (o n).user_id, eq_iff (o n).user_id e.0)) h,
  absent-IsEntry o n c es (ground arith) hs,
)

replaced-IsEntry :
    (o : ℕ → Client) (n : ℕ) (c : Client) (cs : List ℕ) (es : List (String × List ℕ))
    → IsEntry (set_object n c o) ((o n).user_id, cs)
    → All (IsEntry o) es
    → NoRepeatKeys es
    → All (IsEntry (set_object n c o)) (insert (o n).user_id cs es)
unfolding insert
replaced-IsEntry o n c cs [] g h k = (g, tt)
replaced-IsEntry o n c cs (e ∷ es) g (h, hs) (k, ks) = elim (Bool-cases (e.0 == (o n).user_id)) [
  | inl q ↦
      rw (q, insert)
        (
          g,
          absent-IsEntry o n c es
              (subst (λ x. member x (keys es) ≡ false) ((eq_iff e.0 (o n).user_id).0 q) k) hs,
        )
  | inr q ↦ rw (q, insert) (IsEntry-other o n c e q h, replaced-IsEntry o n c cs es g hs ks)
]

-- What an unregistration puts in the place of the list of the user.
pub put_clients-IsEntry :
    (o : ℕ → Client) (n : ℕ) (c : Client) (cs : List ℕ) (es : List (String × List ℕ))
    → IsOwn (set_object n c o) (o n).user_id cs
    → All (IsEntry o) es
    → NoRepeatKeys es
    → All (IsEntry (set_object n c o)) (put_clients (o n).user_id cs es)
      × NoRepeatKeys (put_clients (o n).user_id cs es)
put_clients-IsEntry o n c [] es own h k =
    (remove_key-IsEntry o n c es h, remove_key-NoRepeatKeys (o n).user_id es k)
put_clients-IsEntry o n c (m ∷ ms) es own h k = (
  replaced-IsEntry o n c (m ∷ ms) es (λ q. cc, own) h k,
  insert-NoRepeatKeys (o n).user_id (m ∷ ms) es k,
)
