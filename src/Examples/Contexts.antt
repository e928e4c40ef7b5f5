-- ===== src/Examples/Contexts.antt =====
-- The theorems about the context of an execution, at concrete inputs.
use intelligent_workflows.Prelude.{String, true, ◌≡◌, refl, List, [], ◌∷◌, none, some, ok, length}
use intelligent_workflows.Value.{pos, Fields, empty, field, object, string}
use intelligent_workflows.Context.State.{Config, Services, Trace}
use intelligent_workflows.Context.Builder.{build_context, build_context_from_existing}
use intelligent_workflows.Context.Loading.{IsLoaded, build_context-IsLoaded}
use intelligent_workflows.Context.Requests.{IsBounded, sent, build_context-sent}
use intelligent_workflows.Examples.Inputs.{go}

abbrev config : Config
config = record {
  enabled = true;
  base_url = "http://api";
  max_retries = pos 1;
  retry_delay = pos 500;
  cache_ttl = pos 60;
  endpoint_mapping = ("order.details", "/orders/{id}") ∷ [];
}

-- Redis misses, and the service answers each request.
abbrev services : Services
services = record {
  redis_get = λ n k. ok none;
  redis_set = λ n k s t. none;
  marshal = λ m. ok "{}";
  unmarshal = λ s. ok (some (field "total" (string s) empty));
  new_request = λ u. none;
  http_do = λ n r. ok (200, "12", none);
  new_id = λ n. n;
  id_text = λ n. "id";
  done_during_wait = λ n. none;
  replace_all = λ s a b. "/orders/o-17";
}

abbrev trace : Trace
trace = record { calls = 0; requests = []; waits = []; keys = [] }

abbrev order : Fields
order = field "order" (object (field "id" (string "o-17") empty)) empty

abbrev load : List String
load = "order.details" ∷ "customer.history" ∷ []

build_context-IsLoaded_example :
    IsLoaded "order.details" load order (build_context go config services 7 order load trace).0
    × IsLoaded "order.details" load order
        (build_context_from_existing go config services 7 order load trace).0
build_context-IsLoaded_example =
    build_context-IsLoaded "order.details" go config services 7 order order load trace

build_context-sent_example :
    IsBounded config.enabled config.max_retries
      (length load)
      (sent trace)
      (sent (build_context go config services 7 order load trace).1)
build_context-sent_example = build_context-sent go config services 7 order load trace

-- What is loaded of the order is fetched with one request.
order_details-fetched :
    (build_context go config services 7 order load trace).0
    ≡ field "order"
        (object (field "id" (string "o-17") empty))
        (field "order.details" (object (field "total" (string "12") empty)) empty)
unfolding build_context
order_details-fetched = refl
