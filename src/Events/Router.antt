-- ===== src/Events/Router.antt =====
-- The event router (internal/engine/event_router.go). The goroutines that run the workflows share
-- nothing with the router: the workflows that are started are a log, and `safe_execute_workflow` is
-- what each goroutine does in the world of the executor.
use Prim.Native.Char.{code}
use intelligent_workflows.Prelude.{
  ℕ, suc, String, Bool, true, false, ◌&&◌, List, [], ◌∷◌, ◌++◌, Option, none, some, ◌==◌,
  if◌then◌else◌, nat_eq, not, Err, wrap, Result, ok, err, concat,
}
use intelligent_workflows.Value.{Fields}
use intelligent_workflows.Models.Workflow.{Workflow, TriggerDefinition}
use intelligent_workflows.Models.Event.{Event}

-- The prefix before a `*` that is the last character.
unfoldable pub wildcard : String → Option String
wildcard String.[] = none
wildcard (String.◌∷◌ c String.[]) = if nat_eq (code c) 42 then some String.[] else none
wildcard (String.◌∷◌ c (String.◌∷◌ d s)) = elim (wildcard (String.◌∷◌ d s)) [
  | none ↦ none
  | some p ↦ some (String.◌∷◌ c p)
]

-- `eventType[:len(prefix)] == prefix`, where it is that long
unfoldable pub has_prefix : String → String → Bool
has_prefix String.[] s = true
has_prefix (String.◌∷◌ c p) String.[] = false
has_prefix (String.◌∷◌ c p) (String.◌∷◌ d s) = nat_eq (code c) (code d) && has_prefix p s

-- The match with a prefix, if the event of the trigger has one.
abbrev pub matches_prefix : Option String → String → Bool
matches_prefix none event_type = false
matches_prefix (some p) event_type = has_prefix p event_type

abbrev pub trigger_matches : TriggerDefinition → String → Bool
trigger_matches t event_type =
    if not (t.type == "event")
    then false
    else if t.event == ""
    then false
    else if t.event == event_type
    then true
    else matches_prefix (wildcard t.event) event_type

unfoldable pub workflow_matches_event : Workflow → String → Bool
unfolding wildcard has_prefix
workflow_matches_event w event_type = trigger_matches w.definition.trigger event_type

unfoldable pub matching : String → List Workflow → List Workflow
matching event_type [] = []
matching event_type (w ∷ ws) =
    if workflow_matches_event w event_type
    then w ∷ matching event_type ws
    else matching event_type ws

abbrev pub matching_of : String → Result (List Workflow) → Result (List Workflow)
matching_of event_type (err e) = err (wrap "failed to list workflows" e)
matching_of event_type (ok ws) = ok (matching event_type ws)

-- What the router calls, numbered: the repositories, the clock and identifiers.
pub record Services : Type 0 where
  pub now : ℕ → ℕ
  pub new_id : ℕ → ℕ
  pub short_id : ℕ → String
  pub create_event : ℕ → Event → Option Err
  pub update_event : ℕ → Event → Option Err
  pub list_workflows : ℕ → ℕ → Option Bool → ℕ → ℕ → Result (List Workflow)  -- call, organization, enabled, limit, offset

-- The calls so far, the events written, the last one first, and the workflows that were started, the
-- first one first.
pub record Router : Type 0 where
  pub calls : ℕ
  pub written : List Event
  pub started : List Workflow

abbrev pub R : Type 0 → Type 0
R A = Router → A × Router

infixl 5 ◌>>=◌ ◌>>◌
abbrev pub ◌>>=◌ : {A B : Type 0} → R A → (A → R B) → R B
◌>>=◌ m f r = let (a, r') = m r in f a r'

abbrev pub ◌>>◌ : {B : Type 0} → R (Unit {0}) → R B → R B
m >> k = m >>= λ _. k

abbrev pub return : {A : Type 0} → A → R A
return a r = (a, r)

abbrev pub call : {A : Type 0} → (ℕ → A) → R A
call f r = (f r.calls, record r { calls = suc r.calls })

abbrev pub written_after : Option Err → Event → List Event → List Event
written_after none e es = e ∷ es
written_after (some x) e es = es

abbrev pub write : (ℕ → Event → Option Err) → Event → R (Option Err)
write f e r = (
  f r.calls e,
  record r { calls = suc r.calls; written = written_after (f r.calls e) e r.written },
)

-- The goroutines of the loop, in its order.
abbrev pub start_all : List Workflow → R (Unit {0})
start_all [] r = (tt, r)
start_all (w ∷ ws) r = start_all ws (record r { started = r.started ++ w ∷ [] })

-- The event and the error that `RouteEvent` returns.
abbrev pub Routed : Type 0
Routed = Option Event × Option Err

abbrev pub workflow_names : List Workflow → List String
workflow_names [] = []
workflow_names (w ∷ ws) = w.workflow_id ∷ workflow_names ws

abbrev pub new_event : ℕ → String → String → Fields → ℕ → String → ℕ → Event
new_event organization event_type source payload id short now = record {
  id = id;
  organization_id = organization;
  event_id = concat ("evt_" ∷ short ∷ []);
  event_type = event_type;
  source = source;
  payload = payload;
  triggered_workflows = [];
  received_at = now;
  processed_at = none;
}

module _ (services : Services) where
  unfoldable pub find_matching_workflows : ℕ → String → R (Result (List Workflow))
  unfolding matching
  find_matching_workflows organization event_type = do
    found ← call (λ n. services.list_workflows n organization (some true) 1000 0)
    return (matching_of event_type found)

  -- What follows the search.
  unfoldable pub route_found : Event → Result (List Workflow) → R Routed
  route_found e (err x) = return (some e, some x)
  route_found e (ok []) = do
    now ← call services.now
    _ ← write services.update_event (record e { processed_at = some now })
    return (some (record e { processed_at = some now }), none)
  route_found e (ok (w ∷ ws)) = do
    start_all (w ∷ ws)
    now ← call services.now
    _ ←
        write services.update_event
          (record e { triggered_workflows = workflow_names (w ∷ ws); processed_at = some now })
    return (
      some (record e { triggered_workflows = workflow_names (w ∷ ws); processed_at = some now }),
      none,
    )

  -- What follows the creation of the event, which may fail.
  unfoldable pub route_created : Event → Option Err → R Routed
  unfolding find_matching_workflows route_found
  route_created e (some x) = return (none, some (wrap "failed to create event" x))
  route_created e none = do
    found ← find_matching_workflows e.organization_id e.event_type
    route_found e found

  unfoldable pub route_event : ℕ → String → String → Fields → R Routed
  unfolding route_created
  route_event organization event_type source payload = do
    id ← call services.new_id
    short ← call services.short_id
    now ← call services.now
    let e = new_event organization event_type source payload id short now
    failure ← write services.create_event e
    route_created e failure
