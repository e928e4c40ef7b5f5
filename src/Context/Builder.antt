-- ===== src/Context/Builder.antt =====
-- The functions of the context builder (internal/engine/context.go) that call the cache or the service.
-- BuildContext and BuildContextFromExisting return a nil error on every path, which is left out.
use intelligent_workflows.Prelude.{
  ℕ, zero, suc, String, ◌||◌, List, [], ◌∷◌, Option, none, some, if◌then◌else◌, leb, ltb, Err, msg,
  wrap, Result, ok, err, concat, lookup,
}
use intelligent_workflows.Value.{pos, int, Fields, empty, field, merge, Go}
use intelligent_workflows.Executor.State.{HttpRequest}
use intelligent_workflows.Context.State.{
  Config, Services, B, ◌>>=◌, return, call, extract_identifier, cache_identifier,
  merge_into_context, rounds, backoff_delay, next_int,
}

module _ (go : Go) (config : Config) (services : Services) (organization : ℕ) where
  abbrev pub cache_key : String → String → String
  cache_key resource id =
      concat ("context:" ∷ services.id_text organization ∷ ":" ∷ resource ∷ ":" ∷ id ∷ [])

  -- The key with the identifier, or with a fresh one.
  abbrev pub key_for : String → Option String → B String
  key_for resource (some id) = return (cache_key resource id)
  key_for resource none = do
    id ← call services.new_id
    return (cache_key resource (services.id_text id))

  abbrev pub build_cache_key : String → Fields → B String
  build_cache_key resource context = key_for resource (cache_identifier resource context)

  abbrev pub unmarshalled : String → Result (Option Fields) → Result (Option Fields)
  unmarshalled text (err e) = err (wrap text e)
  unmarshalled text (ok m) = ok m

  abbrev pub cached : Result (Option String) → Result (Option Fields)
  cached (err e) = err (wrap "redis error" e)
  cached (ok none) = err (msg "cache miss")
  cached (ok (some text)) = unmarshalled "failed to unmarshal cached data" (services.unmarshal text)

  abbrev pub get_from_cache : String → Fields → B (Result (Option Fields))
  get_from_cache resource context = do
    key ← build_cache_key resource context
    r ← call (λ n. services.redis_get n key)
    return (cached r)

  abbrev pub keys_after : Option Err → String → List String → List String
  keys_after none key keys = key ∷ keys
  keys_after (some e) key keys = keys

  abbrev pub redis_set : String → String → B (Option Err)
  redis_set key text t = (
    services.redis_set t.calls key text config.cache_ttl,
    record t {
      calls = suc t.calls;
      keys = keys_after (services.redis_set t.calls key text config.cache_ttl) key t.keys;
    },
  )

  -- What follows the encoding.
  abbrev pub encoded_set : String → Result String → B (Option Err)
  encoded_set key (err e) = return (some (wrap "failed to marshal data" e))
  encoded_set key (ok text) = redis_set key text

  abbrev pub set_in_cache : String → Fields → Fields → B (Option Err)
  set_in_cache resource context data' = do
    key ← build_cache_key resource context
    encoded_set key (services.marshal data')

  abbrev pub fetch_request : String → String → ℕ → HttpRequest
  fetch_request url resource id = record {
    method = "GET";
    url = url;
    body = none;
    headers =
        ("Content-Type", "application/json")
        ∷ ("User-Agent", "IntelligentWorkflows/1.0")
        ∷ ("X-Request-ID", services.id_text id)
        ∷ ("X-Resource-Type", resource)
        ∷ ("X-Organization-ID", services.id_text organization)
        ∷ [];
  }

  abbrev pub send : HttpRequest → B (Result (ℕ × String × Option Err))
  send r t =
      (services.http_do t.calls r, record t { calls = suc t.calls; requests = r ∷ t.requests })

  abbrev pub read_body : String → Option Err → Result (Option Fields)
  read_body text (some e) = err (wrap "failed to read response body" e)
  read_body text none = unmarshalled "failed to unmarshal response" (services.unmarshal text)

  abbrev pub answered : Result (ℕ × String × Option Err) → Result (Option Fields)
  answered (err e) = err (wrap "HTTP request failed" e)
  answered (ok (status, text, e)) =
      if ltb status 200 || leb 300 status
      then err (
          msg (
            concat (
              "microservice returned error status "
              ∷ go.sprint (int (pos status))
              ∷ ": "
              ∷ text
              ∷ [])))
      else read_body text e

  -- What follows the request being made, which may fail.
  unfoldable pub request_made : String → String → Option Err → B (Result (Option Fields))
  request_made url resource (some e) = return (err (wrap "failed to create request" e))
  request_made url resource none = do
    id ← call services.new_id
    r ← send (fetch_request url resource id)
    return (answered r)

  abbrev pub make_http_request : String → String → B (Result (Option Fields))
  make_http_request url resource = request_made url resource (services.new_request url)

  -- The wait before an attempt but the first; the context may end during it.
  unfoldable pub wait_before : ℕ → B (Option Err)
  wait_before zero t = (none, t)
  wait_before (suc n) t = (
    services.done_during_wait t.calls,
    record t { calls = suc t.calls; waits = backoff_delay config.retry_delay (suc n) ∷ t.waits },
  )

  -- The error after the last round, which is nil where there was no round.
  abbrev pub gave_up : Option Err → Err
  gave_up none = msg (
      concat (
        "failed to fetch resource after "
        ∷ go.sprint (int (next_int config.max_retries))
        ∷ " attempts: %!w(<nil>)"
        ∷ []))
  gave_up (some e) =
      wrap
        (concat (
          "failed to fetch resource after "
          ∷ go.sprint (int (next_int config.max_retries))
          ∷ " attempts"
          ∷ []))
        e

  -- What follows an attempt.
  abbrev pub unless_fetched :
      Result (Option Fields) → (Err → B (Result (Option Fields))) → B (Result (Option Fields))
  unless_fetched (ok m) again = return (ok m)
  unless_fetched (err e) again = again e

  -- What follows the wait.
  unfoldable pub fetch_attempt :
      String → String → Option Err → (Err → B (Result (Option Fields))) → B (Result (Option Fields))
  unfolding request_made
  fetch_attempt url resource (some e) again = return (err e)
  fetch_attempt url resource none again = do
    r ← make_http_request url resource
    unless_fetched r again

  -- The loop of `fetchFromMicroservice`: the rounds that are left, and those that were made.
  unfoldable pub fetch_attempts : ℕ → ℕ → String → String → Option Err → B (Result (Option Fields))
  unfolding fetch_attempt wait_before
  fetch_attempts zero made url resource last = return (err (gave_up last))
  fetch_attempts (suc n) made url resource last = do
    stopped ← wait_before made
    fetch_attempt url resource stopped (λ e. fetch_attempts n (suc made) url resource (some e))

  abbrev pub fetch_identified : String → String → Result String → B (Result (Option Fields))
  fetch_identified resource endpoint (err e) =
      return (err (wrap (concat ("failed to extract identifier for resource " ∷ resource ∷ [])) e))
  fetch_identified resource endpoint (ok id) =
      fetch_attempts (rounds config.max_retries) 0
        (concat (config.base_url ∷ services.replace_all endpoint "{id}" id ∷ [])) resource none

  abbrev pub fetch_from : String → Fields → Option String → B (Result (Option Fields))
  fetch_from resource context none =
      return (err (msg (concat ("no endpoint mapping found for resource: " ∷ resource ∷ []))))
  fetch_from resource context (some endpoint) =
      fetch_identified resource endpoint (extract_identifier resource context)

  unfoldable pub fetch_from_microservice : String → Fields → B (Result (Option Fields))
  unfolding fetch_attempts extract_identifier lookup
  fetch_from_microservice resource context =
      fetch_from resource context (lookup resource config.endpoint_mapping)

  -- What follows the call of the service: an error is an empty map, and a map with an entry is written
  -- to the cache, whose error is only logged.
  unfoldable pub fetched : String → Fields → Result (Option Fields) → B (Result (Option Fields))
  unfolding cache_identifier
  fetched resource context (err e) = return (ok (some empty))
  fetched resource context (ok none) = return (ok none)
  fetched resource context (ok (some empty)) = return (ok (some empty))
  fetched resource context (ok (some (field k v m))) = do
    _ ← set_in_cache resource context (field k v m)
    return (ok (some (field k v m)))

  abbrev pub load_missed : String → Fields → B (Result (Option Fields))
  load_missed resource context =
      if config.enabled
      then (do r ← fetch_from_microservice resource context; fetched resource context r)
      else return (ok (some empty))

  -- What follows the look into the cache.
  unfoldable pub load_after : String → Fields → Result (Option Fields) → B (Result (Option Fields))
  unfolding fetched fetch_from_microservice
  load_after resource context (ok (some m)) = return (ok (some m))
  load_after resource context (ok none) = load_missed resource context
  load_after resource context (err e) = load_missed resource context

  unfoldable pub load_resource : String → Fields → B (Result (Option Fields))
  unfolding load_after cache_identifier
  load_resource resource context = do
    r ← get_from_cache resource context
    load_after resource context r

  abbrev pub merged : Fields → String → Result (Option Fields) → Fields
  merged context resource (err e) = context
  merged context resource (ok m) = merge_into_context context resource m

  -- The loop over `contextDef.Load`.
  unfoldable pub load_all : List String → Fields → B Fields
  unfolding load_resource merge_into_context
  load_all [] context = return context
  load_all (resource ∷ rest) context = do
    m ← load_resource resource context
    load_all rest (merged context resource m)

  unfoldable pub build_context : Fields → List String → B Fields
  unfolding load_all merge
  build_context payload load = load_all load (merge payload empty)

  -- BuildContextFromExisting
  unfoldable pub build_context_from_existing : Fields → List String → B Fields
  unfolding load_all
  build_context_from_existing existing load = load_all load existing
