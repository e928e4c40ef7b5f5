-- ===== src/Validator/Cycles/Calls.antt =====
-- The recursion of the search for circular references keeps the invariant, and returns.
use native.Mathlib.Nat.{le_trans}
use intelligent_workflows.Prelude.{
  ℕ, zero, suc, ◌≤◌, String, ◌≡◌, refl, inl, inr, true, false, List, [], ◌∷◌, some, arith, member,
  eq_refl, Bool-cases,
}
use intelligent_workflows.Validator.Cycles.{
  Graph, neighbors, Search, Answer, enter, leave, unless_found, visit_all, has_cycle,
}
use intelligent_workflows.Validator.Cycles.Paths.{
  Edge, next, Ends, unvisited, unvisited_mono, unvisited_visit,
}
use intelligent_workflows.Validator.Cycles.Invariant.{
  Inv, Ensures, Above, Circle-of, enter-Inv, enter-Above, leave-Extends, Ensures-unless_found,
  Ensures-map, Returned, Looped, Looped-nil, Looped-cons, Looped-after, fresh,
}

module _ (graph : Graph) where
  -- A call on a name that is not visited, where `call` stands for `hasCycle`.
  abbrev pub CallEnsures : (String → Search → Answer) → List String → ℕ → Type 0
  CallEnsures call universe fuel =
      (n : String) (s : Search)
      → Inv graph s
      → Above graph s n
      → member n s.visited ≡ false
      → member n universe ≡ true
      → unvisited universe s.visited ≤ fuel
      → Ensures graph (call n s) (Returned graph s n)

  -- A name that was not visited before a call on it is done after the call.
  pub Returned-Ends :
      (s t : Search) (n : String)
      → Inv graph s
      → member n s.visited ≡ false
      → Returned graph s n t
      → Ends graph n
  Returned-Ends s t n h new r =
      r.extends.inv.done n r.visited (rw r.extends.same (fresh graph s n h new))

  visit_all-visited :
      (call : String → Search → Answer) (n : String) (ns : List String) (s : Search)
      → member n s.visited ≡ true
      → member n s.rec_stack ≡ false
      → visit_all call (n ∷ ns) s ≡ visit_all call ns s
  unfolding visit_all
  visit_all-visited call n ns s v r = ground arith

  visit_all-found :
      (call : String → Search → Answer) (n : String) (ns : List String) (s : Search)
      → member n s.visited ≡ true
      → member n s.rec_stack ≡ true
      → visit_all call (n ∷ ns) s ≡ some (true, s)
  unfolding visit_all
  visit_all-found call n ns s v r = ground arith

  visit_all-new :
      (call : String → Search → Answer) (n : String) (ns : List String) (s : Search)
      → member n s.visited ≡ false
      → visit_all call (n ∷ ns) s ≡ unless_found (call n s) (visit_all call ns)
  unfolding visit_all
  visit_all-new call n ns s v = rw (v, visit_all) refl

  -- After the loop over the neighbors of `node`, every one of them is done.
  visit_all-Ensures :
      (call : String → Search → Answer) (universe : List String) (fuel : ℕ)
      → CallEnsures call universe fuel
      → (node : String) (ns : List String) (s : Search) → Inv graph s
      → Above graph s node
      → ((n : String) → member n ns ≡ true → Edge graph node n × (member n universe ≡ true))
      → unvisited universe s.visited ≤ fuel
      → Ensures graph (visit_all call ns s) (Looped graph s ns)
  visit_all-Ensures call universe fuel calls node [] s h above edges enough =
      unfold visit_all in Looped-nil graph h
  visit_all-Ensures call universe fuel calls node (n ∷ ns) s h above edges enough =
      let first = edges n (rw (eq_refl n) refl) in
      elim (Bool-cases (member n s.visited)) [
        | inl old ↦ elim (Bool-cases (member n s.rec_stack)) [
          | inl on ↦
              rw (visit_all-found call n ns s old on) (Circle-of graph s node n above first.0 on)
          | inr off ↦ rw (visit_all-visited call n ns s old off) (
              Ensures-map graph (Looped graph s ns) (Looped graph s (n ∷ ns)) _
                (visit_all-Ensures call universe fuel calls node ns s h above
                  (λ m i. edges m (ground arith)) enough)
                (λ t. Looped-cons graph (h.done n old off)))
        ]
        | inr new ↦ rw (visit_all-new call n ns s new) (
            Ensures-unless_found graph (Returned graph s n) (Looped graph s (n ∷ ns))
              (visit_all call ns) (call n s)
              (calls n s h (λ v m. next (above v m) first.0) new first.1 enough)
              (λ t r.
                Ensures-map graph (Looped graph t ns) (Looped graph s (n ∷ ns)) _
                  (visit_all-Ensures call universe fuel calls node ns t r.extends.inv
                    (λ v m. above v (rw r.extends.same at m)) (λ m i. edges m (ground arith))
                    (le_trans (unvisited_mono universe s.visited t.visited r.extends.grows) enough))
                  (λ u l.
                    Looped-cons graph (Returned-Ends s t n h new r)
                      (Looped-after graph r.extends l))))
      ]

  has_cycle-suc :
      (fuel : ℕ) (node : String) (s : Search)
      → has_cycle (suc fuel) graph node s
        ≡ unless_found
            (visit_all (has_cycle fuel graph) (neighbors graph node) (enter node s))
            (λ t. some (false, leave node t))
  unfolding has_cycle
  has_cycle-suc fuel node s = refl

  -- With as much fuel as there are names that are not visited, a call returns, and finds a cycle
  -- only where there is one.
  pub has_cycle-Ensures :
      (universe : List String)
      → ((a b : String) → Edge graph a b → member b universe ≡ true)
      → (fuel : ℕ) → CallEnsures (has_cycle fuel graph) universe fuel
  has_cycle-Ensures universe closed zero n s h above new known enough =
      absurd (omega (arith, unvisited_visit universe s.visited n known new))
  has_cycle-Ensures universe closed (suc fuel) n s h above new known enough =
      rw (has_cycle-suc fuel n s) (
        Ensures-unless_found graph (Looped graph (enter n s) (neighbors graph n))
          (Returned graph s n) (λ t. some (false, leave n t)) _
          (visit_all-Ensures (has_cycle fuel graph) universe fuel
            (has_cycle-Ensures universe closed fuel) n (neighbors graph n) (enter n s)
            (enter-Inv graph h) (enter-Above graph s n above) (λ m e. (e, closed n m e))
            (omega (arith, unvisited_visit universe s.visited n known new)))
          (λ t l. record {
            extends = leave-Extends graph s t n h new l.extends l.ended;
            visited = l.extends.grows n (rw (eq_refl n) refl);
          }))
