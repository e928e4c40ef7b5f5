-- ===== src/Context/Requests.antt =====
-- How many requests the loading of a context sends.
use intelligent_workflows.Prelude.{
  ℕ, zero, suc, subst, ◌+◌, ◌*◌, ◌≤◌, String, Bool, true, false, ◌≡◌, refl, ap, ◌∙◌, List, [], ◌∷◌,
  Option, none, some, Err, Result, ok, err, arith, length, lookup,
}
use intelligent_workflows.Value.{ℤ, pos, negsuc, Fields, empty, field, merge, Go}
use intelligent_workflows.Context.State.{
  Config, Services, Trace, B, rounds, extract_identifier, cache_identifier,
}
use intelligent_workflows.Context.Builder.{
  key_for, get_from_cache, encoded_set, set_in_cache, request_made, wait_before, unless_fetched,
  fetch_attempt, fetch_attempts, fetch_identified, fetch_from, fetch_from_microservice, fetched,
  load_missed, load_after, load_resource, merged, load_all, build_context,
}

-- The number of the requests that were sent.
abbrev pub sent : Trace → ℕ
sent t = length t.requests

-- How many requests have been sent after the loading of a number of resources, at most: with the
-- configured number of retries, one request more than that for each resource; none where the number is
-- negative or the service is not used.
abbrev pub IsBounded : Bool → ℤ → ℕ → ℕ → ℕ → Type 0
IsBounded true (pos retries) resources before after = after ≤ resources * (retries + 1) + before
IsBounded true (negsuc n) resources before after = after ≤ before
IsBounded false retries resources before after = after ≤ before

-- The requests for one resource.
abbrev budget : Bool → ℤ → ℕ
budget true retries = rounds retries
budget false retries = 0

budget-IsBounded :
    (enabled : Bool) (retries : ℤ) (resources before after : ℕ)
    → after ≤ resources * budget enabled retries + before
    → IsBounded enabled retries resources before after
budget-IsBounded true (pos n) resources before after h =
    subst (λ m. after ≤ resources * m + before) (suc-plus n) h
  where
    suc-plus : (m : ℕ) → suc m ≡ m + 1
    suc-plus m = omega arith
budget-IsBounded true (negsuc n) resources before after h = omega arith
budget-IsBounded false retries resources before after h = omega arith

module _ (go : Go) (config : Config) (services : Services) (o : ℕ) where
  key_for-requests :
      (r : String) (id : Option String) (t : Trace)
      → (key_for go config services o r id t).1.requests ≡ t.requests
  key_for-requests r none t = refl
  key_for-requests r (some id) t = refl

  encoded_set-requests :
      (key : String) (text : Result String) (t : Trace)
      → (encoded_set go config services o key text t).1.requests ≡ t.requests
  encoded_set-requests key (err e) t = refl
  encoded_set-requests key (ok text) t = refl

  set_in_cache-requests :
      (r : String) (context m : Fields) (t : Trace)
      → (set_in_cache go config services o r context m t).1.requests ≡ t.requests
  set_in_cache-requests r context m t =
      let s = key_for go config services o r (cache_identifier r context) t in
      encoded_set-requests s.0 (services.marshal m) s.1
      ∙ key_for-requests r (cache_identifier r context) t

  get_from_cache-requests :
      (r : String) (context : Fields) (t : Trace)
      → (get_from_cache go config services o r context t).1.requests ≡ t.requests
  get_from_cache-requests r context t = key_for-requests r (cache_identifier r context) t

  request_made-sent :
      (url r : String) (e : Option Err) (t : Trace)
      → sent (request_made go config services o url r e t).1 ≤ suc (sent t)
  unfolding request_made
  request_made-sent url r none t = omega arith
  request_made-sent url r (some e) t = omega arith

  wait_before-sent : (n : ℕ) (t : Trace) → sent (wait_before go config services o n t).1 ≡ sent t
  unfolding wait_before
  wait_before-sent zero t = refl
  wait_before-sent (suc n) t = refl

  unless_fetched-sent :
      (n : ℕ) (m : Result (Option Fields)) (again : Err → B (Result (Option Fields))) (t : Trace)
      → ((e : Err) (t' : Trace) → sent (again e t').1 ≤ n + sent t')
      → sent (unless_fetched go config services o m again t).1 ≤ n + sent t
  unless_fetched-sent n (ok m) again t h = omega arith
  unless_fetched-sent n (err e) again t h = h e t

  fetch_attempt-sent :
      (n : ℕ) (url r : String) (stopped : Option Err) (again : Err → B (Result (Option Fields)))
      (t : Trace)
      → ((e : Err) (t' : Trace) → sent (again e t').1 ≤ n + sent t')
      → sent (fetch_attempt go config services o url r stopped again t).1 ≤ suc n + sent t
  unfolding fetch_attempt
  fetch_attempt-sent n url r (some e) again t h = omega arith
  fetch_attempt-sent n url r none again t h =
      let s = request_made go config services o url r (services.new_request url) t in
      omega (
        arith,
        request_made-sent url r (services.new_request url) t,
        unless_fetched-sent n s.0 again s.1 h,
      )

  fetch_attempts-sent :
      (n made : ℕ) (url r : String) (last : Option Err) (t : Trace)
      → sent (fetch_attempts go config services o n made url r last t).1 ≤ n + sent t
  unfolding fetch_attempts
  fetch_attempts-sent zero made url r last t = omega arith
  fetch_attempts-sent (suc n) made url r last t =
      let s = wait_before go config services o made t in
      omega (
        arith,
        wait_before-sent made t,
        fetch_attempt-sent n url r s.0
            (λ e. fetch_attempts go config services o n (suc made) url r (some e)) s.1
            (λ e t'. fetch_attempts-sent n (suc made) url r (some e) t'),
      )

  fetch_identified-sent :
      (r endpoint : String) (id : Result String) (t : Trace)
      → sent (fetch_identified go config services o r endpoint id t).1
        ≤ rounds config.max_retries + sent t
  fetch_identified-sent r endpoint (err e) t = omega arith
  fetch_identified-sent r endpoint (ok id) t =
      fetch_attempts-sent (rounds config.max_retries) 0 _ r none t

  fetch_from-sent :
      (r : String) (context : Fields) (endpoint : Option String) (t : Trace)
      → sent (fetch_from go config services o r context endpoint t).1
        ≤ rounds config.max_retries + sent t
  fetch_from-sent r context none t = omega arith
  fetch_from-sent r context (some endpoint) t =
      fetch_identified-sent r endpoint (extract_identifier r context) t

  fetched-requests :
      (r : String) (context : Fields) (m : Result (Option Fields)) (t : Trace)
      → (fetched go config services o r context m t).1.requests ≡ t.requests
  unfolding fetched
  fetched-requests r context (err e) t = refl
  fetched-requests r context (ok none) t = refl
  fetched-requests r context (ok (some empty)) t = refl
  fetched-requests r context (ok (some (field k v m))) t =
      set_in_cache-requests r context (field k v m) t

  load_missed-sent :
      (enabled : Bool) (r : String) (context : Fields) (t : Trace)
      → config.enabled ≡ enabled
      → sent (load_missed go config services o r context t).1
        ≤ budget enabled config.max_retries + sent t
  unfolding fetch_from_microservice fetched
  load_missed-sent false r context t e = rw (e) omega arith
  load_missed-sent true r context t e =
      let s = fetch_from_microservice go config services o r context t in
      rw (e) omega (
        arith,
        fetch_from-sent r context (lookup r config.endpoint_mapping) t,
        ap length (fetched-requests r context s.0 s.1),
      )

  load_after-sent :
      (r : String) (context : Fields) (m : Result (Option Fields)) (t : Trace)
      → sent (load_after go config services o r context m t).1
        ≤ budget config.enabled config.max_retries + sent t
  unfolding load_after
  load_after-sent r context (ok (some m)) t = omega arith
  load_after-sent r context (ok none) t = load_missed-sent config.enabled r context t refl
  load_after-sent r context (err e) t = load_missed-sent config.enabled r context t refl

  load_resource-sent :
      (r : String) (context : Fields) (t : Trace)
      → sent (load_resource go config services o r context t).1
        ≤ budget config.enabled config.max_retries + sent t
  unfolding load_resource
  load_resource-sent r context t =
      let s = get_from_cache go config services o r context t in
      omega
        (arith, load_after-sent r context s.0 s.1, ap length (get_from_cache-requests r context t))

  load_all-sent :
      (load : List String) (context : Fields) (t : Trace)
      → sent (load_all go config services o load context t).1
        ≤ length load * budget config.enabled config.max_retries + sent t
  unfolding load_all
  load_all-sent [] context t = omega arith
  load_all-sent (r ∷ rest) context t =
      let s = load_resource go config services o r context t in
      omega (
        arith,
        load_resource-sent r context t,
        load_all-sent rest (merged go config services o context r s.0) s.1,
      )

  -- Building a context sends at most one request more than the configured number of retries for each
  -- resource to load; it sends none if the number is negative, or if the service is not to be used.
  pub build_context-sent :
      (payload : Fields) (load : List String) (t : Trace)
      → IsBounded config.enabled config.max_retries
          (length load)
          (sent t)
          (sent (build_context go config services o payload load t).1)
  unfolding build_context
  build_context-sent payload load t =
      budget-IsBounded config.enabled config.max_retries (length load) (sent t) _
        (load_all-sent load (merge payload empty) t)
