-- ===== src/Events/Matching.antt =====
-- Which events start a workflow (`workflowMatchesEvent` of internal/engine/event_router.go).
use Prim.Native.Char.{Char, code}
use Prim.Native.String
use text.Mathlib.TextEquality.{Char-path}
use text.Mathlib.TextLemmas.{
  nil-append, cons-append, nil≢cons, cons-ne-nil, head-eq_of_cons-eq, tail-eq_of_cons-eq,
  append-ne-nil_of_right_ne-nil,
}
use mathlib.Core.Bool.{false≢true}
use mathlib.Core.Option.{none-ne-some}
use intelligent_workflows.Prelude.{
  String, Bool, true, false, not, ◌≡◌, ◌≢◌, ◌↔◌, ◌⊎◌, inl, inr, refl, sym, ap, ◌∙◌, Option, none,
  some, ◌==◌, if◌then◌else◌, nat_eq, Bool-cases, Option-cases, eq_iff, arith, some_inj,
}
use intelligent_workflows.Models.Workflow.{Workflow}
use intelligent_workflows.Events.Router.{
  wildcard, has_prefix, matches_prefix, workflow_matches_event,
}

-- The event of the trigger is the one given, or a prefix of it with a star after.
abbrev pub Names : String → String → Type 0
Names event event_type =
    (event ≡ event_type)
    ⊎ ((p : String) × (rest : String) × (event ≡ String.◌++◌ p "*")
        × (event_type ≡ String.◌++◌ p rest))

abbrev star : Char
star = "*"

star-ne-nil : ◌≢◌ {A = String} "*" String.[]
star-ne-nil e = cons-ne-nil star String.[] e

-- `(c ∷ p) ++ t`, the other way round.
cons-append-sym :
    (c : Char) (p t : String) → String.◌∷◌ c (String.◌++◌ p t) ≡ String.◌++◌ (String.◌∷◌ c p) t
cons-append-sym c p t = sym (cons-append c p t)

has_prefix_iff :
    (p s : String) → has_prefix p s ≡ true ↔ ((rest : String) × (s ≡ String.◌++◌ p rest))
unfolding has_prefix
has_prefix_iff String.[] s = (λ e. (s, sym (nil-append s)), λ t. refl)
has_prefix_iff (String.◌∷◌ c p) String.[] =
    (λ e. elim (false≢true e) [ ], λ t. elim (nil≢cons (t.1 ∙ cons-append c p t.0)) [ ])
has_prefix_iff (String.◌∷◌ c p) (String.◌∷◌ d s) =
    let (there, back) = has_prefix_iff p s in
    (
      λ e.
          let (rest, q) = there (ground arith) in
          let same : c ≡ d = Char-path c d (ground arith) in
          (
            rest,
            ap (λ x. String.◌∷◌ x s) (sym same) ∙ (ap (String.◌∷◌ c) q ∙ cons-append-sym c p rest),
          ),
      λ t.
          let q = t.1 ∙ cons-append c p t.0 in
          let same : code c ≡ code d = ap code (sym (head-eq_of_cons-eq q)) in
          let later = back (t.0, tail-eq_of_cons-eq q) in ground arith,
    )

picked :
    (b : Bool) (p : String)
    → (if b then some String.[] else none) ≡ some p
    → (b ≡ true) × (◌≡◌ {A = String} String.[] p)
picked true p e = (refl, some_inj e)
picked false p e = elim (none-ne-some p e) [ ]

-- A text of one character.
star_iff :
    (c : Char) (p : String)
    → (if nat_eq (code c) 42 then some String.[] else none) ≡ some p
      ↔ (String.◌∷◌ c String.[] ≡ String.◌++◌ p "*")
star_iff c String.[] = (
  λ e.
      let is_star = (picked (nat_eq (code c) 42) String.[] e).0 in
      let same : c ≡ star = Char-path c star (ground arith) in
      ap (λ x. String.◌∷◌ x String.[]) same ∙ sym (nil-append "*"),
  λ e. let same : code c ≡ 42 = ap code (head-eq_of_cons-eq (e ∙ nil-append "*")) in ground arith,
)
star_iff c (String.◌∷◌ d p) = (
  λ e. elim (nil≢cons (picked (nat_eq (code c) 42) (String.◌∷◌ d p) e).1) [ ],
  λ e.
      elim (append-ne-nil_of_right_ne-nil p star-ne-nil
        (sym (tail-eq_of_cons-eq (e ∙ cons-append d p "*")))) [ ],
)

-- A character before the rest of the text.
abbrev with_front : Char → Option String → Option String
with_front c o = elim o [ none ↦ none | some p ↦ some (String.◌∷◌ c p) ]

with_front-some :
    (c : Char) (o : Option String) (p : String)
    → with_front c o ≡ some p
    → (q : String) × (o ≡ some q) × (String.◌∷◌ c q ≡ p)
with_front-some c none p e = elim (none-ne-some p e) [ ]
with_front-some c (some q) p e = (q, refl, some_inj e)

wildcard_iff : (s p : String) → wildcard s ≡ some p ↔ (s ≡ String.◌++◌ p "*")
unfolding wildcard
wildcard_iff String.[] p = (
  λ e. elim (none-ne-some p e) [ ],
  λ e. elim (append-ne-nil_of_right_ne-nil p star-ne-nil (sym e)) [ ],
)
wildcard_iff (String.◌∷◌ c String.[]) p = star_iff c p
wildcard_iff (String.◌∷◌ c (String.◌∷◌ d s)) String.[] = (
  λ e.
      let (q, _, n) = with_front-some c (wildcard (String.◌∷◌ d s)) String.[] e in
      elim (cons-ne-nil c q n) [ ],
  λ e. elim (cons-ne-nil d s (tail-eq_of_cons-eq (e ∙ nil-append "*"))) [ ],
)
wildcard_iff (String.◌∷◌ c (String.◌∷◌ d s)) (String.◌∷◌ b p) =
    let (there, back) = wildcard_iff (String.◌∷◌ d s) p in
    (
      λ e.
          let (q, found, n) = with_front-some c (wildcard (String.◌∷◌ d s)) (String.◌∷◌ b p) e in
          let rest = there (found ∙ ap some (tail-eq_of_cons-eq n)) in
          ap (λ x. String.◌∷◌ x (String.◌∷◌ d s)) (head-eq_of_cons-eq n)
          ∙ (ap (String.◌∷◌ b) rest ∙ cons-append-sym b p "*"),
      λ e.
          let q = e ∙ cons-append b p "*" in
          ap (with_front c) (back (tail-eq_of_cons-eq q))
          ∙ ap (λ x. some (String.◌∷◌ x p)) (head-eq_of_cons-eq q),
    )

matches_prefix_iff :
    (event event_type : String)
    → matches_prefix (wildcard event) event_type ≡ true ↔ (
        (p : String) × (rest : String) × (event ≡ String.◌++◌ p "*")
        × (event_type ≡ String.◌++◌ p rest))
matches_prefix_iff event event_type = (
  λ e. elim (Option-cases (wildcard event)) [
    | inl n ↦ elim (false≢true (sym (ap (λ o. matches_prefix o event_type) n) ∙ e)) [ ]
    | inr (p, q) ↦
        let (rest, r) =
          (has_prefix_iff p event_type).0 (sym (ap (λ o. matches_prefix o event_type) q) ∙ e) in
        (p, rest, (wildcard_iff event p).0 q, r)
  ],
  λ t.
      ap (λ o. matches_prefix o event_type) ((wildcard_iff event t.0).1 t.2)
      ∙ (has_prefix_iff t.0 event_type).1 (t.1, t.3),
)

-- The tests of a trigger, in their order.
guarded_iff :
    (other no_event exact prefix : Bool)
    → (if not other then false else if no_event then false else if exact then true else prefix)
        ≡ true
      ↔ ((other ≡ true) × (no_event ≡ false) × ((exact ≡ true) ⊎ (prefix ≡ true)))
guarded_iff false n x p = (λ e. elim (false≢true e) [ ], λ t. elim (false≢true t.0) [ ])
guarded_iff true true x p = (λ e. elim (false≢true e) [ ], λ t. elim (false≢true (sym t.1)) [ ])
guarded_iff true false true p = (λ e. (refl, refl, inl refl), λ t. refl)
guarded_iff true false false p =
    (λ e. (refl, refl, inr e), λ t. elim t.2 [ inl x ↦ elim (false≢true x) [ ] | inr y ↦ y ])

unequal : (s t : String) → s ≢ t → s == t ≡ false
unequal s t h = elim (Bool-cases (s == t)) [ inl e ↦ elim (h ((eq_iff s t).0 e)) [ ] | inr e ↦ e ]

-- An event starts a workflow exactly when the workflow's trigger is of the type `event`, names an
-- event, and that name is the type of the event, or ends in a star and the type of the event begins
-- with all that stands before the star.
pub workflow_matches_event_iff :
    (w : Workflow) (event_type : String)
    → workflow_matches_event w event_type ≡ true ↔ (
        (w.definition.trigger.type ≡ "event")
        × (w.definition.trigger.event ≢ "")
        × Names w.definition.trigger.event event_type)
unfolding workflow_matches_event
workflow_matches_event_iff w event_type =
    let t = w.definition.trigger in
    let (there, back) =
      guarded_iff (t.type == "event") (t.event == "") (t.event == event_type)
        (matches_prefix (wildcard t.event) event_type) in
    (
      λ e.
          let (a, b, c) = there e in
          (
            (eq_iff t.type "event").0 a,
            λ q. false≢true (sym b ∙ (eq_iff t.event "").1 q),
            elim c [
              | inl x ↦ inl ((eq_iff t.event event_type).0 x)
              | inr y ↦ inr ((matches_prefix_iff t.event event_type).0 y)
            ],
          ),
      λ u. back (
        (eq_iff t.type "event").1 u.0,
        unequal t.event "" u.1,
        elim u.2 [
          | inl x ↦ inl ((eq_iff t.event event_type).1 x)
          | inr y ↦ inr ((matches_prefix_iff t.event event_type).1 y)
        ],
      ),
    )
