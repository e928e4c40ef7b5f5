-- ===== src/Events/Routing.antt =====
-- What `RouteEvent` (internal/engine/event_router.go) starts and returns.
use mathlib.Core.List.{append_assoc}
use intelligent_workflows.Prelude.{
  ℕ, suc, String, true, ◌≡◌, ◌≢◌, refl, sym, ap, ◌∙◌, subst, List, [], ◌∷◌, ◌++◌, map, Option, none,
  some, Err, Result, ok, err, ◌⊎◌, inl, inr, Bool-cases, if◌then◌else◌,
}
use mathlib.Core.Bool.{false≢true}
use intelligent_workflows.Value.{Fields}
use intelligent_workflows.Models.Workflow.{Workflow}
use intelligent_workflows.Models.Event.{Event}
use intelligent_workflows.Events.Matching.{Names, workflow_matches_event_iff}
use intelligent_workflows.Events.Router.{
  Services, Router, Routed, start_all, workflow_names, workflow_matches_event, matching,
  matching_of, find_matching_workflows, route_found, route_created, route_event, written_after,
  new_event,
}

-- The type starts the workflow: its trigger is an event trigger that names the type.
abbrev pub Starts : String → Workflow → Type 0
Starts event_type w =
    (w.definition.trigger.type ≡ "event")
    × (w.definition.trigger.event ≢ "")
    × Names w.definition.trigger.event event_type

-- The second list has the workflows of the first that the type starts, in their order.
abbrev pub Chosen : String → List Workflow → List Workflow → Type 0
Chosen event_type [] chosen = chosen ≡ []
Chosen event_type (w ∷ ws) chosen =
    ((rest : List Workflow) × Starts event_type w × (chosen ≡ w ∷ rest) × Chosen event_type ws rest)
    ⊎ ((¬ Starts event_type w) × Chosen event_type ws chosen)

-- Where there is an error, nothing is started. Otherwise the repository was asked for the enabled
-- workflows of the organization, at most 1000 from the first on, and the workflows of its answer that
-- the type starts are those that the event names, and those that are started after what was started
-- before.
abbrev pub RoutedAs : Services → ℕ → String → Router → Routed → Router → Type 0
RoutedAs services organization event_type before (e, some x) after = after.started ≡ before.started
RoutedAs services organization event_type before (none, none) after = ⊥
RoutedAs services organization event_type before (some e, none) after =
    let n = suc (suc (suc (suc before.calls))) in
    (ws : List Workflow) × (chosen : List Workflow) × (services.list_workflows n organization
        (some true) 1000 0
      ≡ ok ws)
    × Chosen event_type ws chosen
    × (e.event_type ≡ event_type)
    × (e.organization_id ≡ organization)
    × (e.processed_at ≡ some (services.now (suc n)))
    × (e.triggered_workflows ≡ map (λ w. w.workflow_id) chosen)
    × (after.started ≡ before.started ++ chosen)

append_nil : (ws : List Workflow) → ws ++ [] ≡ ws
append_nil [] = refl
append_nil (w ∷ ws) = ap (λ l. w ∷ l) (append_nil ws)

start_all-started : (ws : List Workflow) (r : Router) → (start_all ws r).1.started ≡ r.started ++ ws
start_all-started [] r = sym (append_nil r.started)
start_all-started (w ∷ ws) r =
    start_all-started ws (record r { started = r.started ++ w ∷ [] })
    ∙ append_assoc r.started (w ∷ []) ws

start_all-calls : (ws : List Workflow) (r : Router) → (start_all ws r).1.calls ≡ r.calls
start_all-calls [] r = refl
start_all-calls (w ∷ ws) r = start_all-calls ws (record r { started = r.started ++ w ∷ [] })

workflow_names-map : (ws : List Workflow) → workflow_names ws ≡ map (λ w. w.workflow_id) ws
workflow_names-map [] = refl
workflow_names-map (w ∷ ws) = ap (λ l. w.workflow_id ∷ l) (workflow_names-map ws)

matching-Chosen :
    (event_type : String) (ws : List Workflow) → Chosen event_type ws (matching event_type ws)
unfolding matching
matching-Chosen event_type [] = refl
matching-Chosen event_type (w ∷ ws) = elim (Bool-cases (workflow_matches_event w event_type)) [
  | inl e ↦ inl (
    matching event_type ws,
    (workflow_matches_event_iff w event_type).0 e,
    ap (λ b. if b then w ∷ matching event_type ws else matching event_type ws) e,
    matching-Chosen event_type ws,
  )
  | inr e ↦ inr (
    λ s. false≢true (sym e ∙ (workflow_matches_event_iff w event_type).1 s),
    subst (Chosen event_type ws)
        (sym (ap (λ b. if b then w ∷ matching event_type ws else matching event_type ws) e))
        (matching-Chosen event_type ws),
  )
]

module _ (services : Services) (o : ℕ) (event_type : String) where
  -- The event after the search, where it is known what was found.
  RoutedAs-found :
      (e : Event) (ws found : List Workflow) (before r : Router)
      → services.list_workflows (suc (suc (suc (suc before.calls)))) o (some true) 1000 0 ≡ ok ws
      → Chosen event_type ws found
      → e.event_type ≡ event_type
      → e.organization_id ≡ o
      → e.triggered_workflows ≡ []
      → r.started ≡ before.started
      → r.calls ≡ suc (suc (suc (suc (suc before.calls))))
      → RoutedAs services o event_type before
          (route_found services e (ok found) r).0
          (route_found services e (ok found) r).1
  unfolding route_found
  RoutedAs-found e ws [] before r l m ty org nil s k = (
    ws,
    [],
    l,
    m,
    ty,
    org,
    ap (λ n. some (services.now n)) k,
    nil,
    s ∙ sym (append_nil before.started),
  )
  RoutedAs-found e ws (w ∷ found) before r l m ty org nil s k = (
    ws,
    w ∷ found,
    l,
    m,
    ty,
    org,
    ap (λ n. some (services.now n)) (start_all-calls (w ∷ found) r ∙ k),
    workflow_names-map (w ∷ found),
    start_all-started (w ∷ found) r ∙ ap (λ x. x ++ w ∷ found) s,
  )

  RoutedAs-matching :
      (e : Event) (listed : Result (List Workflow)) (before r : Router)
      → services.list_workflows (suc (suc (suc (suc before.calls)))) o (some true) 1000 0 ≡ listed
      → e.event_type ≡ event_type
      → e.organization_id ≡ o
      → e.triggered_workflows ≡ []
      → r.started ≡ before.started
      → r.calls ≡ suc (suc (suc (suc (suc before.calls))))
      → RoutedAs services o event_type before
          (route_found services e (matching_of event_type listed) r).0
          (route_found services e (matching_of event_type listed) r).1
  unfolding route_found
  RoutedAs-matching e (err x) before r l ty org nil s k = s
  RoutedAs-matching e (ok ws) before r l ty org nil s k =
      RoutedAs-found e ws (matching event_type ws) before r l (matching-Chosen event_type ws) ty org
        nil s k

RoutedAs-created :
    (services : Services) (e : Event) (failure : Option Err) (before r : Router)
    → e.triggered_workflows ≡ []
    → r.started ≡ before.started
    → r.calls ≡ suc (suc (suc (suc before.calls)))
    → RoutedAs services e.organization_id e.event_type before
        (route_created services e failure r).0
        (route_created services e failure r).1
unfolding route_created find_matching_workflows
RoutedAs-created services e (some x) before r nil s k = s
RoutedAs-created services e none before r nil s k =
    RoutedAs-matching services e.organization_id e.event_type e
      (services.list_workflows r.calls e.organization_id (some true) 1000 0) before
      (record r { calls = suc r.calls })
      (ap (λ n. services.list_workflows n e.organization_id (some true) 1000 0) (sym k)) refl refl
      nil s (ap suc k)

-- `RouteEvent` either returns an error, and starts no workflow; or it has asked the repository for the
-- enabled workflows of the organization, at most 1000 from the first on, and it returns the event, with
-- the time at which it was processed. The workflows of the answer with an event trigger that names the
-- type of the event, and only those, are then listed in the event by their IDs, and started once each,
-- in the order of the answer.
pub route_event-RoutedAs :
    (services : Services) (o : ℕ) (event_type source : String) (payload : Fields) (r : Router)
    → RoutedAs services o event_type r
        (route_event services o event_type source payload r).0
        (route_event services o event_type source payload r).1
unfolding route_event
route_event-RoutedAs services o event_type source payload r =
    let e =
      new_event o event_type source payload (services.new_id r.calls)
        (services.short_id (suc r.calls)) (services.now (suc (suc r.calls))) in
    let n = suc (suc (suc r.calls)) in
    let failure = services.create_event n e in
    RoutedAs-created services e failure r
      (record r { calls = suc n; written = written_after failure e r.written }) refl refl refl
