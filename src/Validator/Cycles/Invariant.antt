-- ===== src/Validator/Cycles/Invariant.antt =====
-- What the search for circular references keeps: every visited name that has left the recursion
-- stack has only paths that end, and every name on the stack has a path to the current one.
use mathlib.Core.WellFounded.{Acc}
use intelligent_workflows.Prelude.{
  String, ◌≡◌, refl, sym, ◌∙◌, subst, inl, inr, true, false, List, [], ◌∷◌, arith, member,
  member-cons, remove, remove-fresh, eq_iff, eq_refl, Bool-cases, none, some, ◌==◌,
}
use intelligent_workflows.Validator.Cycles.{Graph, Search, Answer, enter, leave, unless_found}
use intelligent_workflows.Validator.Cycles.Paths.{Edge, Star, here, Circle, Ends}

pub record Inv (graph : Graph) (s : Search) : Type 0 where
  pub stacked : (v : String) → member v s.rec_stack ≡ true → member v s.visited ≡ true
  pub done : (v : String) → member v s.visited ≡ true → member v s.rec_stack ≡ false → Ends graph v

-- `t` is left by a part of the search that began in `s` and found no cycle.
pub record Extends (graph : Graph) (s t : Search) : Type 0 where
  pub inv : Inv graph t
  pub grows : (v : String) → member v s.visited ≡ true → member v t.visited ≡ true
  pub same : t.rec_stack ≡ s.rec_stack

-- The search returned; if it found a cycle there is one, and if not the maps satisfy `P`.
abbrev pub Ensures : Graph → Answer → (Search → Type 0) → Type 0
Ensures graph none P = ⊥
Ensures graph (some (true, t)) P = Circle graph
Ensures graph (some (false, t)) P = P t

-- Every name on the stack has a path to `node`.
abbrev pub Above : Graph → Search → String → Type 0
Above graph s node = (v : String) → member v s.rec_stack ≡ true → Star graph v node

module _ (graph : Graph) where
  pub Extends-refl : {s : Search} → Inv graph s → Extends graph s s
  Extends-refl h = record { inv = h; grows = λ v m. m; same = refl }

  pub Extends-trans : {s t u : Search} → Extends graph s t → Extends graph t u → Extends graph s u
  Extends-trans h k = record {
    inv = k.inv;
    grows = λ v m. k.grows v (h.grows v m);
    same = k.same ∙ h.same;
  }

  -- An edge to a name on the stack closes a cycle.
  pub Circle-of :
      (s : Search) (node n : String)
      → Above graph s node
      → Edge graph node n
      → member n s.rec_stack ≡ true
      → Circle graph
  Circle-of s node n above e m = record { start = n; last = node; path = above n m; back = e }

  pub enter-Inv : {s : Search} {node : String} → Inv graph s → Inv graph (enter node s)
  enter-Inv {s} {node} h = record {
    stacked = λ v m. ground (arith, h.stacked v);
    done = λ v m o. h.done v (ground arith) (ground arith);
  }

  pub enter-Above :
      (s : Search) (node : String) → Above graph s node → Above graph (enter node s) node
  enter-Above s node above v m = elim (member-cons v node _ m) [
    | inl e ↦ subst (λ w. Star graph w node) (sym e) here
    | inr r ↦ above v r
  ]

  pub fresh :
      (s : Search) (node : String)
      → Inv graph s
      → member node s.visited ≡ false
      → member node s.rec_stack ≡ false
  fresh s node h new = ground (arith, h.stacked node)

  leave_stack :
      (s t : Search) (node : String)
      → member node s.rec_stack ≡ false
      → t.rec_stack ≡ node ∷ s.rec_stack
      → remove node t.rec_stack ≡ s.rec_stack
  unfolding remove
  leave_stack s t node new e = rw (e, eq_refl node) (remove-fresh node s.rec_stack new)

  -- When all neighbors of the top of the stack are done, so is the top.
  pub leave-Extends :
      (s t : Search) (node : String)
      → Inv graph s
      → member node s.visited ≡ false
      → Extends graph (enter node s) t
      → ((n : String) → Edge graph node n → Ends graph n)
      → Extends graph s (leave node t)
  leave-Extends s t node h new x ends =
      let stack = leave_stack s t node (fresh s node h new) x.same in
      record {
        inv = record {
          stacked = λ v m. x.grows v (ground (arith, h.stacked v));
          done = λ v m o. elim (Bool-cases (v == node)) [
            | inl e ↦ subst (Ends graph) (sym ((eq_iff v node).0 e)) (Acc.intro node ends)
            | inr e ↦ x.inv.done v m (rw (x.same, e) (rw stack at o))
          ];
        };
        grows = λ v m. x.grows v (ground arith);
        same = stack;
      }

  pub Ensures-unless_found :
      (P Q : Search → Type 0) (k : Search → Answer) (r : Answer)
      → Ensures graph r P
      → ((t : Search) → P t → Ensures graph (k t) Q)
      → Ensures graph (unless_found r k) Q
  unfolding unless_found
  Ensures-unless_found P Q k none h f = h
  Ensures-unless_found P Q k (some (true, t)) h f = h
  Ensures-unless_found P Q k (some (false, t)) h f = f t h

  pub Ensures-map :
      (P Q : Search → Type 0) (r : Answer)
      → Ensures graph r P
      → ((t : Search) → P t → Q t)
      → Ensures graph r Q
  Ensures-map P Q none h f = h
  Ensures-map P Q (some (true, t)) h f = h
  Ensures-map P Q (some (false, t)) h f = f t h

  -- A call on the name `n` in `s` was left in `t`.
  pub record Returned (s : Search) (n : String) (t : Search) : Type 0 where
    pub extends : Extends graph s t
    pub visited : member n t.visited ≡ true

  -- A loop over `ns` in `s` was left in `t`.
  pub record Looped (s : Search) (ns : List String) (t : Search) : Type 0 where
    pub extends : Extends graph s t
    pub ended : (n : String) → member n ns ≡ true → Ends graph n

  pub Looped-nil : {s : Search} → Inv graph s → Looped s [] s
  Looped-nil h = record { extends = Extends-refl h; ended = λ n m. cc }

  pub Looped-cons :
      {s t : Search} {n : String} {ns : List String}
      → Ends graph n
      → Looped s ns t
      → Looped s (n ∷ ns) t
  Looped-cons {n} {ns} first l = record {
    extends = l.extends;
    ended = λ m i. elim (member-cons m n ns i) [
      | inl e ↦ subst (Ends graph) (sym e) first
      | inr r ↦ l.ended m r
    ];
  }

  pub Looped-after :
      {s t u : Search} {ns : List String} → Extends graph s t → Looped t ns u → Looped s ns u
  Looped-after x l = record { extends = Extends-trans x l.extends; ended = l.ended }
