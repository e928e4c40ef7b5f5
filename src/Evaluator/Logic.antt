-- ===== src/Evaluator/Logic.antt =====
-- What `EvaluateCondition` (internal/engine/evaluator.go) decides for nested `And` and `Or`.
use intelligent_workflows.Prelude.{
  String, ◌≡◌, refl, ◌↔◌, inl, inr, Bool, true, false, List, [], ◌∷◌, ◌++◌, ok, arith, All,
  Verdict-cases, ap, sym, ◌∙◌,
}
use intelligent_workflows.Value.{Value, Fields, Go}
use intelligent_workflows.Models.Workflow.{
  Condition, condition, Conditions, no_conditions, more_conditions,
}
use intelligent_workflows.Evaluator.{
  evaluate, evaluate_and, evaluate_or, short_and, short_or, and_ors,
}

abbrev pub condition_list : Conditions → List Condition
condition_list no_conditions = []
condition_list (more_conditions c cs) = c ∷ condition_list cs

module _ (go : Go) (context : Fields) where
  abbrev pub Gives : Bool → Condition → Type 0
  Gives b c = evaluate go c context ≡ ok b

  -- `b` is what the first condition that does not give `other` gives.
  abbrev pub Decided : Bool → Bool → List Condition → Type 0
  Decided other b cs =
      (before : List Condition) × (c : Condition) × (after : List Condition) × (cs
        ≡ before ++ c ∷ after)
      × All (Gives other) before
      × Gives b c

  Decided-cons :
      {other b : Bool} {c : Condition} {cs : List Condition}
      → Gives other c
      → Decided other b cs
      → Decided other b (c ∷ cs)
  Decided-cons {c} g (before, d, after, e, all, last) =
      (c ∷ before, d, after, ap (λ l. c ∷ l) e, (g, all), last)

  and-cons :
      (c : Condition) (cs : Conditions)
      → evaluate_and go (more_conditions c cs) context
        ≡ short_and (evaluate go c context) (evaluate_and go cs context)
  unfolding evaluate
  and-cons c cs = refl

  or-cons :
      (c : Condition) (cs : Conditions)
      → evaluate_or go (more_conditions c cs) context
        ≡ short_or (evaluate go c context) (evaluate_or go cs context)
  unfolding evaluate
  or-cons c cs = refl

  and-true :
      (cs : Conditions)
      → evaluate_and go cs context ≡ ok true
      → All (Gives true) (condition_list cs)
  unfolding short_and
  and-true no_conditions h = tt
  and-true (more_conditions c cs) h =
      (ground (arith, and-cons c cs), and-true cs (ground (arith, and-cons c cs)))

  true-and :
      (cs : Conditions)
      → All (Gives true) (condition_list cs)
      → evaluate_and go cs context ≡ ok true
  unfolding evaluate short_and
  true-and no_conditions h = refl
  true-and (more_conditions c cs) h = rw (h.0, short_and) (true-and cs h.1)

  and-false :
      (cs : Conditions)
      → evaluate_and go cs context ≡ ok false
      → Decided true false (condition_list cs)
  unfolding short_and
  and-false no_conditions h = (unfold evaluate in cc)
  and-false (more_conditions c cs) h = elim (Verdict-cases (evaluate go c context)) [
    | inl given ↦ Decided-cons given (and-false cs (ground (arith, and-cons c cs)))
    | inr (inl given) ↦ ([], c, condition_list cs, refl, tt, given)
    | inr (inr (e, failed)) ↦ ground (arith, and-cons c cs)
  ]

  false-and :
      (cs : Conditions) (before : List Condition) (c : Condition) (after : List Condition)
      → condition_list cs ≡ before ++ c ∷ after
      → All (Gives true) before
      → Gives false c
      → evaluate_and go cs context ≡ ok false
  unfolding evaluate short_and
  false-and no_conditions [] c after e all last = cc
  false-and no_conditions (b ∷ before) c after e all last = cc
  false-and (more_conditions d cs) [] c after e all last = ground arith
  false-and (more_conditions d cs) (b ∷ before) c after e all last =
      let same : d ≡ b = cc in
      rw (same, all.0, short_and) (false-and cs before c after (cc) all.1 last)

  or-false :
      (cs : Conditions)
      → evaluate_or go cs context ≡ ok false
      → All (Gives false) (condition_list cs)
  unfolding short_or
  or-false no_conditions h = tt
  or-false (more_conditions c cs) h =
      (ground (arith, or-cons c cs), or-false cs (ground (arith, or-cons c cs)))

  false-or :
      (cs : Conditions)
      → All (Gives false) (condition_list cs)
      → evaluate_or go cs context ≡ ok false
  unfolding evaluate short_or
  false-or no_conditions h = refl
  false-or (more_conditions c cs) h = rw (h.0, short_or) (false-or cs h.1)

  or-true :
      (cs : Conditions)
      → evaluate_or go cs context ≡ ok true
      → Decided false true (condition_list cs)
  unfolding short_or
  or-true no_conditions h = (unfold evaluate in cc)
  or-true (more_conditions c cs) h = elim (Verdict-cases (evaluate go c context)) [
    | inl given ↦ ([], c, condition_list cs, refl, tt, given)
    | inr (inl given) ↦ Decided-cons given (or-true cs (ground (arith, or-cons c cs)))
    | inr (inr (e, failed)) ↦ ground (arith, or-cons c cs)
  ]

  true-or :
      (cs : Conditions) (before : List Condition) (c : Condition) (after : List Condition)
      → condition_list cs ≡ before ++ c ∷ after
      → All (Gives false) before
      → Gives true c
      → evaluate_or go cs context ≡ ok true
  unfolding evaluate short_or
  true-or no_conditions [] c after e all last = cc
  true-or no_conditions (b ∷ before) c after e all last = cc
  true-or (more_conditions d cs) [] c after e all last = ground arith
  true-or (more_conditions d cs) (b ∷ before) c after e all last =
      let same : d ≡ b = cc in
      rw (same, all.0, short_or) (true-or cs before c after (cc) all.1 last)

  evaluate-and_eq :
      (name op : String) (v : Value) (c : Condition) (cs ors : Conditions)
      → evaluate go (condition name op v (more_conditions c cs) ors) context
        ≡ evaluate_and go (more_conditions c cs) context
  unfolding evaluate and_ors
  evaluate-and_eq name op v c cs ors = refl

  evaluate-or_eq :
      (name op : String) (v : Value) (c : Condition) (cs : Conditions)
      → evaluate go (condition name op v no_conditions (more_conditions c cs)) context
        ≡ evaluate_or go (more_conditions c cs) context
  unfolding evaluate and_ors
  evaluate-or_eq name op v c cs = refl

-- A condition with `And` clauses, whatever its field, operator, value and `Or` clauses are, is true
-- exactly when every clause is, and false exactly when some clause is false and every clause before
-- it is true.
pub evaluate-and_iff :
    (go : Go) (context : Fields) (name op : String) (v : Value) (c : Condition)
    (cs ors : Conditions)
    → let whole = condition name op v (more_conditions c cs) ors in
      ((evaluate go whole context ≡ ok true) ↔ All (Gives go context true) (c ∷ condition_list cs))
      × ((evaluate go whole context ≡ ok false)
          ↔ Decided go context true false (c ∷ condition_list cs))
evaluate-and_iff go context name op v c cs ors =
    let clauses = more_conditions c cs in
    let same = evaluate-and_eq go context name op v c cs ors in
    (
      (λ h. and-true go context clauses (sym same ∙ h), λ a. same ∙ true-and go context clauses a),
      (
        λ h. and-false go context clauses (sym same ∙ h),
        λ (before, d, after, e, all, last).
            same ∙ false-and go context clauses before d after e all last,
      ),
    )

-- A condition with `Or` clauses and no `And` clause is false exactly when every clause is, and true
-- exactly when some clause is true and every clause before it is false.
pub evaluate-or_iff :
    (go : Go) (context : Fields) (name op : String) (v : Value) (c : Condition) (cs : Conditions)
    → let whole = condition name op v no_conditions (more_conditions c cs) in
      ((evaluate go whole context ≡ ok false)
        ↔ All (Gives go context false) (c ∷ condition_list cs))
      × ((evaluate go whole context ≡ ok true)
          ↔ Decided go context false true (c ∷ condition_list cs))
evaluate-or_iff go context name op v c cs =
    let clauses = more_conditions c cs in
    let same = evaluate-or_eq go context name op v c cs in
    (
      (λ h. or-false go context clauses (sym same ∙ h), λ a. same ∙ false-or go context clauses a),
      (
        λ h. or-true go context clauses (sym same ∙ h),
        λ (before, d, after, e, all, last).
            same ∙ true-or go context clauses before d after e all last,
      ),
    )
