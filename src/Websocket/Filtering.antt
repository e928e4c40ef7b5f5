-- ===== src/Websocket/Filtering.antt =====
-- The filters of a subscription (`MatchesFilters` of internal/websocket/client.go).
use intelligent_workflows.Prelude.{
  String, Bool, true, false, ◌≡◌, ◌↔◌, ◌⊎◌, inl, inr, refl, sym, ◌≢◌, subst, ◌∙◌, List, [], ◌∷◌,
  Option, none, some, lookup, member, if◌then◌else◌, some_inj, arith,
}
use mathlib.Core.Bool.{false≢true}
use mathlib.Core.Option.{none-ne-some}
use intelligent_workflows.Websocket.Client.{
  Client, Filters, excludes, passes, admits, matches_filters,
}

-- A filter that is not set, or contains the value.
abbrev pub Allows : List String → String → Type 0
Allows filter value = (filter ≡ []) ⊎ (member value filter ≡ true)

cons-ne-nil : (s : String) (ss : List String) → ◌≢◌ {A = List String} (s ∷ ss) []
cons-ne-nil s ss e = cc

excludes_iff :
    (filter : List String) (value : String) → excludes filter value ≡ false ↔ Allows filter value
excludes_iff [] value = (λ e. inl refl, λ a. refl)
excludes_iff (s ∷ ss) value = (
  λ e. inr (ground arith),
  λ a. elim a [ inl n ↦ elim (cons-ne-nil s ss n) [ ] | inr m ↦ ground arith ],
)

-- Three tests, of which the first that holds answers.
abbrev none_of : Bool → Bool → Bool → Bool
none_of a b c = if a then false else if b then false else if c then false else true

none_of_iff : (a b c : Bool) → none_of a b c ≡ true ↔ ((a ≡ false) × (b ≡ false) × (c ≡ false))
none_of_iff true b c = (λ e. elim (false≢true e) [ ], λ t. elim (false≢true (sym t.0)) [ ])
none_of_iff false true c = (λ e. elim (false≢true e) [ ], λ t. elim (false≢true (sym t.1)) [ ])
none_of_iff false false true = (λ e. elim (false≢true e) [ ], λ t. elim (false≢true (sym t.2)) [ ])
none_of_iff false false false = (λ e. (refl, refl, refl), λ t. refl)

-- The answer where no filter is set is the one that the three tests give.
unset :
    (ws es ss : List String) (workflow execution status : String)
    → passes
        (record { workflow_ids = ws; execution_ids = es; statuses = ss })
        workflow
        execution
        status
      ≡ none_of (excludes ws workflow) (excludes es execution) (excludes ss status)
unset [] [] [] workflow execution status = refl
unset [] [] (s ∷ ss) workflow execution status = refl
unset [] (e ∷ es) ss workflow execution status = refl
unset (w ∷ ws) es ss workflow execution status = refl

passes_iff :
    (f : Filters) (workflow execution status : String)
    → passes f workflow execution status ≡ true ↔ (
        Allows f.workflow_ids workflow
        × Allows f.execution_ids execution
        × Allows f.statuses status)
passes_iff f workflow execution status =
    let e = unset f.workflow_ids f.execution_ids f.statuses workflow execution status in
    let (there, back) =
      none_of_iff (excludes f.workflow_ids workflow) (excludes f.execution_ids execution)
        (excludes f.statuses status) in
    let (to1, from1) = excludes_iff f.workflow_ids workflow in
    let (to2, from2) = excludes_iff f.execution_ids execution in
    let (to3, from3) = excludes_iff f.statuses status in
    (
      λ p. let (a, b, c) = there (sym e ∙ p) in (to1 a, to2 b, to3 c),
      λ t. e ∙ back (from1 t.0, from2 t.1, from3 t.2),
    )

admits_iff :
    (o : Option Filters) (workflow execution status : String)
    → admits o workflow execution status ≡ true ↔ (
        (f : Filters) × (o ≡ some f)
        × Allows f.workflow_ids workflow
        × Allows f.execution_ids execution
        × Allows f.statuses status)
admits_iff none workflow execution status =
    (λ p. elim (false≢true p) [ ], λ t. elim (none-ne-some t.0 t.1) [ ])
admits_iff (some f) workflow execution status = (
  λ p. let (a, b, c) = (passes_iff f workflow execution status).0 p in (f, refl, a, b, c),
  λ t.
      subst (λ x. passes x workflow execution status ≡ true) (sym (some_inj t.1))
        ((passes_iff t.0 workflow execution status).1 (t.2, t.3, t.4)),
)

-- An event matches the filters of a client exactly when the client is subscribed to the channel and
-- each of the three filters of that subscription is empty or contains the value of the event.
pub matches_filters_iff :
    (channel workflow execution status : String) (c : Client)
    → matches_filters channel workflow execution status c ≡ true ↔ (
        (f : Filters) × (lookup channel c.subscriptions ≡ some f)
        × Allows f.workflow_ids workflow
        × Allows f.execution_ids execution
        × Allows f.statuses status)
unfolding matches_filters
matches_filters_iff channel workflow execution status c =
    admits_iff (lookup channel c.subscriptions) workflow execution status
