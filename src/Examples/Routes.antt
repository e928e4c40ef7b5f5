-- ===== src/Examples/Routes.antt =====
-- The theorems about events, access and variables, at concrete inputs.
use intelligent_workflows.Prelude.{String, true, ◌≡◌, refl, ◌≢◌, ◌↔◌, [], ◌∷◌, none, some, ok, Has}
use intelligent_workflows.Value.{Fields, empty, field, get, string, object}
use intelligent_workflows.Models.Workflow.{Workflow}
use intelligent_workflows.Events.Router.{Services, Router, workflow_matches_event, route_event}
use intelligent_workflows.Events.Matching.{Names, workflow_matches_event_iff}
use intelligent_workflows.Events.Routing.{RoutedAs, route_event-RoutedAs}
use intelligent_workflows.Events.Running.{
  safe_execute_workflow, ContainedAs, safe_execute_workflow-ContainedAs,
}
use intelligent_workflows.Access.Guards.{
  Claims, require_permission, require_any_permission, require_all_permissions, require_role,
  require_any_role,
}
use intelligent_workflows.Access.Granted.{IsGuarded, checks-IsGuarded}
use intelligent_workflows.Executor.Interpolation.{get_context_value, interpolate_variables}
use intelligent_workflows.Executor.Start.{execute}
use intelligent_workflows.Examples.Inputs.{go, ext, world, flow}

abbrev on_orders : Workflow
on_orders = record flow {
  definition = record flow.definition {
    trigger = record flow.definition.trigger { type = "event"; event = "order.*" };
  };
}

workflow_matches_event_iff_example : workflow_matches_event on_orders "order.created" ≡ true ↔ (
    (on_orders.definition.trigger.type ≡ "event")
    × (on_orders.definition.trigger.event ≢ "")
    × Names on_orders.definition.trigger.event "order.created")
workflow_matches_event_iff_example = workflow_matches_event_iff on_orders "order.created"

abbrev services : Services
services = record {
  now = λ n. n;
  new_id = λ n. n;
  short_id = λ n. "1234abcd";
  create_event = λ n e. none;
  update_event = λ n e. none;
  list_workflows = λ n o enabled limit offset. ok (on_orders ∷ []);
}

abbrev router : Router
router = record { calls = 0; written = []; started = [] }

route_event-RoutedAs_example :
    RoutedAs services 7 "order.created" router
      (route_event services 7 "order.created" "shop" empty router).0
      (route_event services 7 "order.created" "shop" empty router).1
route_event-RoutedAs_example = route_event-RoutedAs services 7 "order.created" "shop" empty router

safe_execute_workflow-ContainedAs_example :
    ContainedAs go ext "nil map" "stack" 7 flow "order.created"
      (execute go ext 9 none 7 flow "order.created" empty world).0
      (execute go ext 9 none 7 flow "order.created" empty world).1
      (safe_execute_workflow go ext "nil map" "stack" 9 none 7 flow "order.created" empty world).0
      (safe_execute_workflow go ext "nil map" "stack" 9 none 7 flow "order.created" empty world).1
safe_execute_workflow-ContainedAs_example =
    safe_execute_workflow-ContainedAs go ext "nil map" "stack" 9 none 7 flow "order.created" empty
      world

abbrev claims : Claims
claims = record {
  user_id = 1;
  organization_id = 7;
  username = "ann";
  email = "ann@example.org";
  roles = "viewer" ∷ [];
  permissions = "workflow:read" ∷ [];
}

abbrev name_of : Claims → String
name_of c = c.username

checks-IsGuarded_example :
    IsGuarded name_of
      (λ c. Has "workflow:read" c.permissions)
      (some claims)
      (require_permission name_of "workflow:read" (some claims))
    × IsGuarded name_of
        (λ c. (x : String) × Has x ("admin" ∷ []) × Has x c.permissions)
        (some claims)
        (require_any_permission name_of ("admin" ∷ []) (some claims))
    × IsGuarded name_of
        (λ c. (x : String) → Has x ("admin" ∷ []) → Has x c.permissions)
        (some claims)
        (require_all_permissions name_of ("admin" ∷ []) (some claims))
    × IsGuarded name_of
        (λ c. Has "workflow:read" c.roles)
        (some claims)
        (require_role name_of "workflow:read" (some claims))
    × IsGuarded name_of
        (λ c. (x : String) × Has x ("admin" ∷ []) × Has x c.roles)
        (some claims)
        (require_any_role name_of ("admin" ∷ []) (some claims))
checks-IsGuarded_example = checks-IsGuarded name_of "workflow:read" ("admin" ∷ []) (some claims)

abbrev order_context : Fields
order_context = field "order" (object (field "id" (string "o-17") empty)) empty

abbrev order_body : Fields
order_body = field "id" (string "${order.id}") (field "kind" (string "order") empty)

-- The reference in the body is read.
order_id-read : get "id" (interpolate_variables order_body order_context) ≡ some (string "o-17")
unfolding interpolate_variables get_context_value get
order_id-read = refl
