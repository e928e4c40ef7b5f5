-- ===== src/Validator/Cycles/Correct.antt =====
-- The answer of `validateNoCycles` (internal/validators/workflow_validator.go) against circles in
-- the graph of references.
use intelligent_workflows.Prelude.{
  ◌==◌, ◌≤◌, ◌∙◌, subst, Option-cases, ℕ, String, ◌≡◌, ◌↔◌, refl, ap, ◌⊎◌, inl, inr, Bool, true,
  false, List, [], ◌∷◌, Option, none, some, arith, length, lookup, insert, lookup-insert, member,
  member-append, eq_iff, eq_refl, Bool-cases, if◌then◌else◌,
}
use native.Mathlib.Nat.{le_trans}
use intelligent_workflows.Models.Workflow.{Step, info}
use intelligent_workflows.Validator.Cycles.{
  Graph, neighbors, references, build_graph, Search, unless_found, has_cycle, search_from, ids,
  all_references, names, search, validate_no_cycles,
}
use intelligent_workflows.Validator.Cycles.Paths.{
  Edge, Circle, Ends, Ends-acyclic, first-Edge, unvisited, unvisited_mono, unvisited-nil,
}
use intelligent_workflows.Validator.Cycles.Invariant.{
  Inv, Ensures, Ensures-unless_found, Ensures-map, Returned, Looped, Looped-nil, Looped-cons,
  Looped-after,
}
use intelligent_workflows.Validator.Cycles.Calls.{CallEnsures, has_cycle-Ensures, Returned-Ends}

pub neighbors-insert :
    (k a : String) (ns : List String) (g : Graph)
    → neighbors (insert k ns g) a ≡ (if k == a then ns else neighbors g a)
unfolding neighbors
neighbors-insert k a ns g = ground (arith, lookup-insert k a ns g)

-- Every edge ends at a name that some step refers to, and begins at the ID of a step.
Edge-target :
    (steps : List Step) (g : Graph) (a b : String)
    → Edge (build_graph steps g) a b
    → (member b (all_references steps) ≡ true) ⊎ Edge g a b
unfolding build_graph
Edge-target [] g a b e = inr e
Edge-target (s ∷ ss) g a b e = ground (
  arith,
  Edge-target ss (insert (info s).id (references (info s)) g) a b e,
  neighbors-insert (info s).id a (references (info s)) g,
  member-append b (references (info s)) (all_references ss),
)

Edge-source :
    (steps : List Step) (g : Graph) (a b : String)
    → Edge (build_graph steps g) a b
    → (member a (ids steps) ≡ true) ⊎ Edge g a b
unfolding build_graph
Edge-source [] g a b e = inr e
Edge-source (s ∷ ss) g a b e = ground (
  arith,
  Edge-source ss (insert (info s).id (references (info s)) g) a b e,
  neighbors-insert (info s).id a (references (info s)) g,
  eq_iff a (info s).id,
  eq_iff (info s).id a,
)

abbrev pub graph_of : List Step → Graph
graph_of steps = build_graph steps []

no-Edge : (a b : String) → ¬ Edge [] a b
unfolding neighbors lookup
no-Edge a b e = cc

Edge-names :
    (steps : List Step) (a b : String) → Edge (graph_of steps) a b → member b (names steps) ≡ true
Edge-names steps a b e = elim (Edge-target steps [] a b e) [
  | inl m ↦ ground (arith, member-append b (ids steps) (all_references steps))
  | inr f ↦ absurd (no-Edge a b f)
]

pub Edge-ids :
    (steps : List Step) (a b : String) → Edge (graph_of steps) a b → member a (ids steps) ≡ true
Edge-ids steps a b e = elim (Edge-source steps [] a b e) [
  | inl m ↦ m
  | inr f ↦ absurd (no-Edge a b f)
]

module _ (graph : Graph) (call : String → Search → Option (Bool × Search)) where
  search_from-visited :
      (id : String) (rest : List String) (s : Search)
      → member id s.visited ≡ true
      → search_from call (id ∷ rest) s ≡ search_from call rest s
  unfolding search_from
  search_from-visited id rest s v = rw (v, search_from) refl

  search_from-new :
      (id : String) (rest : List String) (s : Search)
      → member id s.visited ≡ false
      → search_from call (id ∷ rest) s ≡ unless_found (call id s) (search_from call rest)
  unfolding search_from
  search_from-new id rest s v = rw (v, search_from) refl

  -- The loop over the steps leaves every ID of the list done.
  search_from-Ensures :
      (universe : List String) (fuel : ℕ)
      → CallEnsures graph call universe fuel
      → (rest : List String) (s : Search) → Inv graph s
      → s.rec_stack ≡ []
      → ((n : String) → member n rest ≡ true → member n universe ≡ true)
      → unvisited universe s.visited ≤ fuel
      → Ensures graph (search_from call rest s) (Looped graph s rest)
  search_from-Ensures universe fuel calls [] s h empty known enough =
      unfold search_from in Looped-nil graph h
  search_from-Ensures universe fuel calls (id ∷ rest) s h empty known enough =
      elim (Bool-cases (member id s.visited)) [
        | inl old ↦ rw (search_from-visited id rest s old) (
            Ensures-map graph (Looped graph s rest) (Looped graph s (id ∷ rest)) _
              (search_from-Ensures universe fuel calls rest s h empty
                (λ n m. known n (ground arith)) enough)
              (λ t. Looped-cons graph (h.done id old (rw empty refl))))
        | inr new ↦ rw (search_from-new id rest s new) (
            Ensures-unless_found graph (Returned graph s id) (Looped graph s (id ∷ rest))
              (search_from call rest) (call id s)
              (calls id s h (λ v m. absurd (off_stack v m)) new (known id (rw (eq_refl id) refl))
                enough)
              (λ t r.
                Ensures-map graph (Looped graph t rest) (Looped graph s (id ∷ rest)) _
                  (search_from-Ensures universe fuel calls rest t r.extends.inv
                    (r.extends.same ∙ empty) (λ n m. known n (ground arith))
                    (le_trans (unvisited_mono universe s.visited t.visited r.extends.grows) enough))
                  (λ u l.
                    Looped-cons graph (Returned-Ends graph s t id h new r)
                      (Looped-after graph r.extends l))))
      ]
    where
      off_stack : (v : String) → ¬ (member v s.rec_stack ≡ true)
      off_stack v m = cc (ap (member v) empty)

abbrev start : Search
start = record { visited = []; rec_stack = [] }

search-Ensures :
    (steps : List Step)
    → Ensures (graph_of steps) (search steps) (Looped (graph_of steps) start (ids steps))
unfolding search
search-Ensures steps =
    search_from-Ensures (graph_of steps) (has_cycle (length (names steps)) (graph_of steps))
      (names steps) (length (names steps))
      (has_cycle-Ensures (graph_of steps) (names steps) (Edge-names steps) (length (names steps)))
      (ids steps) start (record { stacked = λ v m. (cc); done = λ v m o. (cc) }) refl
      (λ n m. ground (arith, member-append n (ids steps) (all_references steps)))
      (unvisited-nil (names steps))

-- The search returns for every list of steps: it never recurs more deeply than there are names.
pub search_returns : (steps : List Step) → (r : Bool × Search) × (search steps ≡ some r)
search_returns steps = elim (Option-cases (search steps)) [
  | inl none' ↦ absurd (
      subst (λ r. Ensures (graph_of steps) r (Looped (graph_of steps) start (ids steps))) none'
        (search-Ensures steps))
  | inr found ↦ found
]

-- Where every ID of a step is done, there is no circle.
ended-acyclic :
    (steps : List Step)
    → ((n : String) → member n (ids steps) ≡ true → Ends (graph_of steps) n)
    → ¬ Circle (graph_of steps)
ended-acyclic steps ended c =
    let (x, f, r) = first-Edge (graph_of steps) c.path c.back in
    Ends-acyclic (graph_of steps) (ended c.start (Edge-ids steps c.start x f)) c.last c.path c.back

acyclic_of :
    (steps : List Step) (r : Option (Bool × Search))
    → search steps ≡ r
    → validate_no_cycles steps ≡ none
    → Ensures (graph_of steps) r (Looped (graph_of steps) start (ids steps))
    → (n : String) → member n (ids steps) ≡ true
    → Ends (graph_of steps) n
unfolding validate_no_cycles
acyclic_of steps none e ok' h = absurd h
acyclic_of steps (some (true, t)) e ok' h = cc (rw (e, validate_no_cycles) at ok')
acyclic_of steps (some (false, t)) e ok' h = h.ended

accepted_of :
    (steps : List Step) (r : Option (Bool × Search))
    → search steps ≡ r
    → ¬ Circle (graph_of steps)
    → Ensures (graph_of steps) r (Looped (graph_of steps) start (ids steps))
    → validate_no_cycles steps ≡ none
unfolding validate_no_cycles
accepted_of steps none e free h = absurd h
accepted_of steps (some (true, t)) e free h = absurd (free h)
accepted_of steps (some (false, t)) e free h = rw (e, validate_no_cycles) refl

-- From every ID of an accepted list of steps all paths of references end.
pub accepted-Ends :
    (steps : List Step)
    → validate_no_cycles steps ≡ none
    → (n : String) → member n (ids steps) ≡ true
    → Ends (graph_of steps) n
accepted-Ends steps h = acyclic_of steps (search steps) refl h (search-Ensures steps)

-- For every list of steps, whatever IDs repeat or are missing, the check reports no error exactly
-- when no name refers back to itself through `on_true`, `on_false` and `on_timeout`.
pub validate_no_cycles_iff :
    (steps : List Step) → (validate_no_cycles steps ≡ none) ↔ ¬ Circle (graph_of steps)
validate_no_cycles_iff steps = (
  λ h. ended-acyclic steps (accepted-Ends steps h),
  λ free. accepted_of steps (search steps) refl free (search-Ensures steps),
)
