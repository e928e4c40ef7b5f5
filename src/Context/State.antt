-- ===== src/Context/State.antt =====
-- What the context builder (internal/engine/context.go) calls and keeps, and its functions that call
-- nothing.
use intelligent_workflows.Prelude.{
  ℕ, zero, suc, ◌-◌, ◌*◌, ◌%◌, ◌^◌, String, Bool, ◌||◌, List, [], ◌∷◌, Option, none, some, ◌==◌,
  if◌then◌else◌, split, Err, msg, Result, ok, err, concat,
}
use intelligent_workflows.Value.{
  ℤ, pos, negsuc, Value, string, object, Fields, empty, field, get, put,
}
use intelligent_workflows.Evaluator.{dot}
use intelligent_workflows.Executor.State.{HttpRequest}
use intelligent_workflows.Executor.Policy.{two_64, int64_of}

-- ContextEnrichmentConfig
pub record Config : Type 0 where
  pub enabled : Bool
  pub base_url : String
  pub max_retries : ℤ
  pub retry_delay : ℤ
  pub cache_ttl : ℤ
  pub endpoint_mapping : List (String × String)

-- What the builder calls, numbered: Redis, the HTTP client, JSON, identifiers, and the context, which
-- may end during a wait. A map that is decoded may be nil.
pub record Services : Type 0 where
  pub redis_get : ℕ → String → Result (Option String)
  pub redis_set : ℕ → String → String → ℤ → Option Err
  pub marshal : Fields → Result String
  pub unmarshal : String → Result (Option Fields)
  pub new_request : String → Option Err
  pub http_do : ℕ → HttpRequest → Result (ℕ × String × Option Err)  -- the status, and what ReadAll returns
  pub new_id : ℕ → ℕ
  pub id_text : ℕ → String
  pub done_during_wait : ℕ → Option Err
  pub replace_all : String → String → String → String

-- The calls so far; the requests sent, the waits and the keys written, the last one first.
pub record Trace : Type 0 where
  pub calls : ℕ
  pub requests : List HttpRequest
  pub waits : List ℤ
  pub keys : List String

abbrev pub B : Type 0 → Type 0
B A = Trace → A × Trace

infixl 5 ◌>>=◌
abbrev pub ◌>>=◌ : {A C : Type 0} → B A → (A → B C) → B C
◌>>=◌ m f t = let (a, t') = m t in f a t'

abbrev pub return : {A : Type 0} → A → B A
return a t = (a, t)

abbrev pub call : {A : Type 0} → (ℕ → A) → B A
call f t = (f t.calls, record t { calls = suc t.calls })

abbrev pub some_text : Option Value → Option String
some_text (some (string s)) = if s == "" then none else some s
some_text v = none

-- `context[entity].(map[string]interface{})["id"].(string)`, where it is not empty
abbrev pub nested_id : String → Fields → Option String
nested_id entity context = elim (get entity context) [
  | some (object m) ↦ some_text (get "id" m)
  | _ ↦ none
]

abbrev pub is_entity : String → Bool
is_entity e =
    (e == "order")
    || ((e == "customer")
        || ((e == "product")
            || ((e == "payment")
                || ((e == "shipment")
                    || ((e == "user") || ((e == "subscription") || (e == "invoice")))))))

-- The first of the two identifiers that there is.
abbrev pub identified : String → Option String → Option String → Result String
identified e (some id) other = ok id
identified e none (some id) = ok id
identified e none none =
    err (msg (concat ("identifier not found in context for entity type: " ∷ e ∷ [])))

abbrev pub identifier_in : String → List String → Fields → Result String
identifier_in resource [] context = err (msg (concat ("invalid resource format: " ∷ resource ∷ [])))
identifier_in resource (e ∷ parts) context =
    if is_entity e
    then identified e (nested_id e context) (some_text (get (concat (e ∷ "_id" ∷ [])) context))
    else err (msg (concat ("unknown entity type: " ∷ e ∷ [])))

unfoldable pub extract_identifier : String → Fields → Result String
unfolding split get
extract_identifier resource context = identifier_in resource (split dot resource) context

-- The identifier in a cache key, which only three resources have.
unfoldable pub cache_identifier : String → Fields → Option String
unfolding get
cache_identifier resource context =
    if resource == "order.details"
    then nested_id "order" context
    else if resource == "customer.history"
    then nested_id "customer" context
    else if resource == "product.inventory"
    then nested_id "product" context
    else none

-- A map with an entry is merged under the name of the resource.
unfoldable pub merge_into_context : Fields → String → Option Fields → Fields
unfolding put
merge_into_context context resource none = context
merge_into_context context resource (some empty) = context
merge_into_context context resource (some (field k v m)) =
    put resource (object (field k v m)) context

-- The number of rounds of `for attempt := 0; attempt <= MaxRetries; attempt++`
abbrev pub rounds : ℤ → ℕ
rounds (pos n) = suc n
rounds (negsuc n) = 0

-- `delay * time.Duration(1<<uint(attempt-1))`, with the wrap-around of int64
unfoldable pub backoff_delay : ℤ → ℕ → ℤ
unfolding int64_of
backoff_delay (pos d) attempt = int64_of (d * 2 ^ (attempt - 1))
backoff_delay (negsuc d) attempt = int64_of (two_64 - suc d * 2 ^ (attempt - 1) % two_64)

-- One more.
abbrev pub next_int : ℤ → ℤ
next_int (pos n) = pos (suc n)
next_int (negsuc zero) = pos 0
next_int (negsuc (suc n)) = negsuc n
