-- ===== src/Executor/Run/Termination.antt =====
-- The loop over steps (`executeSteps` of internal/engine/executor.go) against `validateNoCycles` of
-- internal/validators/workflow_validator.go.
use mathlib.Core.WellFounded.{Acc}
use intelligent_workflows.Prelude.{
  ℕ, zero, suc, ◌+◌, ◌≤◌, String, ◌≡◌, ◌≢◌, inl, inr, refl, ◌∙◌, true, List, [], ◌∷◌, Option, none,
  some, arith, subst, Err, All, Bool-cases, Option-cases, List-cases, lookup, insert, lookup-insert,
  member, eq_iff, eq_refl, ◌==◌,
}
use intelligent_workflows.Value.{Fields, Go}
use intelligent_workflows.Models.Workflow.{StepInfo, Step, info, Workflow}
use intelligent_workflows.Models.Execution.{ExecutionResult, result_executed}
use intelligent_workflows.Validator.Cycles.{
  Graph, neighbors, references, named, build_graph, ids, validate_no_cycles,
}
use intelligent_workflows.Validator.Cycles.Paths.{Ends}
use intelligent_workflows.Validator.Cycles.Correct.{graph_of, neighbors-insert, accepted-Ends}
use intelligent_workflows.Executor.State.{Ext, World, M, Context}
use intelligent_workflows.Executor.Steps.{StepOutcome}
use intelligent_workflows.Executor.Run.{
  RunResult, finished, out_of_fuel, steps_loop, step_ended, step_found, unless_stopped,
  execute_steps, step_map, poll_context, conclude, conclude_error, run_execution,
}
use intelligent_workflows.Executor.Retry.{execute_step_with_retry}
use intelligent_workflows.Executor.Run.Next.{Follows, execute_step_with_retry-Follows}

-- Every step in the map has its references as the neighbors of its key.
abbrev Agrees : List (String × Step) → Graph → Type 0
Agrees m g = (k : String) (s : Step) → lookup k m ≡ some s → neighbors g k ≡ references (info s)

Agrees-insert :
    (m : List (String × Step)) (g : Graph) (s : Step)
    → Agrees m g
    → Agrees (insert (info s).id s m) (insert (info s).id (references (info s)) g)
Agrees-insert m g s h k t e = ground (
  arith,
  h k t,
  lookup-insert (info s).id k s m,
  neighbors-insert (info s).id k (references (info s)) g,
)

Agrees-build :
    (steps : List Step) (m : List (String × Step)) (g : Graph)
    → Agrees m g
    → Agrees (step_map steps m) (build_graph steps g)
unfolding step_map build_graph
Agrees-build [] m g h = h
Agrees-build (s ∷ ss) m g h =
    Agrees-build ss (insert (info s).id s m) (insert (info s).id (references (info s)) g)
      (Agrees-insert m g s h)

Agrees-nil : Agrees [] []
unfolding lookup
Agrees-nil k s e = cc

-- Every step in the map is one of the list.
All-lookup :
    (P : Step → Type 0) (steps : List Step) (m : List (String × Step))
    → All P steps
    → ((k : String) (s : Step) → lookup k m ≡ some s → P s)
    → (k : String) (s : Step) → lookup k (step_map steps m) ≡ some s
    → P s
unfolding step_map
All-lookup P [] m a h = h
All-lookup P (t ∷ ts) m a h = All-lookup P ts (insert (info t).id t m) a.1 (λ k s e.
    elim (Bool-cases ((info t).id == k)) [
      | inl same ↦ subst P (cc (lookup-insert (info t).id k t m)) a.0
      | inr other ↦ h k s (cc (lookup-insert (info t).id k t m))
    ])

named-head : (x : String) (rest : List String) → x ≢ "" → member x (named x rest) ≡ true
named-head x rest h = ground (arith, eq_refl x, eq_iff x "")

named-tail :
    (x y : String) (rest : List String) → member y rest ≡ true → member y (named x rest) ≡ true
named-tail x y rest h = ground (arith, eq_iff x "")

-- A reference that the executor follows is an edge of the graph.
true-edge : (i : StepInfo) → i.on_true ≢ "" → member i.on_true (references i) ≡ true
unfolding references
true-edge i h = named-head i.on_true _ h

false-edge : (i : StepInfo) → i.on_false ≢ "" → member i.on_false (references i) ≡ true
unfolding references
false-edge i h = named-tail i.on_true i.on_false _ (named-head i.on_false _ h)

module _ (go : Go) (ext : Ext) (poll : M (Option Err)) (m : List (String × Step)) (ctx : Context)
    (context : Fields) where
  -- With at least `n` fuel the loop ends from the given ID on.
  abbrev Enough : String → ℕ → Type 0
  Enough id n =
      (fuel : ℕ)
      → n ≤ fuel
      → (final : ExecutionResult) (w : World)
      → (steps_loop go ext poll fuel m ctx context id final w).0 ≢ out_of_fuel

  Enough-nil : (n : ℕ) → Enough "" n
  unfolding steps_loop
  Enough-nil n zero h final w = λ e. cc
  Enough-nil n (suc fuel) h final w = λ e. cc

  Enough-more : (id : String) (a b : ℕ) → a ≤ b → Enough id a → Enough id b
  Enough-more id a b le h fuel k = h fuel (omega arith)

  step_ended-ends :
      (fuel : ℕ) (s : Step) (final : ExecutionResult) (o : StepOutcome) (e : Option Err) (w : World)
      → ((final : ExecutionResult) (w : World)
          → (steps_loop go ext poll fuel m ctx context o.next final w).0 ≢ out_of_fuel)
      → (step_ended go ext (steps_loop go ext poll fuel m ctx context) s final o e w).0
        ≢ out_of_fuel
  unfolding step_ended
  step_ended-ends fuel s final o (some e) w h = λ p. cc
  step_ended-ends fuel s final o none w h = h _ w

  unless_stopped-ends :
      (stop : Option Err) (rest : M RunResult)
      → ((w : World) → (rest w).0 ≢ out_of_fuel)
      → (w : World) → (unless_stopped go ext stop rest w).0 ≢ out_of_fuel
  unfolding unless_stopped
  unless_stopped-ends (some e) rest h w = λ p. cc
  unless_stopped-ends none rest h w = h w

  -- What may follow the step that is found has enough fuel.
  abbrev Below : ℕ → Option Step → Type 0
  Below n o = (s : Step) (name : String) → o ≡ some s → Follows (info s) name → Enough name n

  step_found-ends :
      (id : String) (n fuel : ℕ) (final : ExecutionResult) (o : Option Step)
      → n ≤ fuel
      → Below n o
      → (w : World)
      → (step_found go ext (steps_loop go ext poll fuel m ctx context) ctx context id final o w).0
        ≢ out_of_fuel
  unfolding step_found
  step_found-ends id n fuel final none le b w = λ p. cc
  step_found-ends id n fuel final (some s) le b w =
      let (out, w') = execute_step_with_retry go ext s ctx context w in
      step_ended-ends fuel s final out out.error w'
        (b s out.next refl (execute_step_with_retry-Follows go ext s ctx context w) fuel le)

  -- Enough fuel for every step that may follow, and one more, is enough for a step.
  Enough-step : (id : String) (n : ℕ) → Below n (lookup id m) → Enough id (suc n)
  unfolding steps_loop
  Enough-step id n below zero le final w = absurd (omega arith)
  Enough-step id n below (suc fuel) le final w = elim (Bool-cases (id == "")) [
    | inl e ↦ rw (e, steps_loop) (λ p. cc)
    | inr e ↦
        rw (e, steps_loop)
          (unless_stopped-ends (poll w).0 _
            (step_found-ends id n fuel final (lookup id m) (omega arith) below) (poll w).1)
  ]

  module _ (g : Graph) (agrees : Agrees m g)
      (flat : (k : String) (s : Step) → lookup k m ≡ some s → (info s).next ≡ "") where
    abbrev Successor : String → Type 0
    Successor name = (n : ℕ) × Enough name n

    -- The fuel for a reference that may be empty.
    successor : (name : String) → (name ≢ "" → Successor name) → Successor name
    successor name h = elim (Bool-cases (name == "")) [
      | inl e ↦ (0, rw ((eq_iff name "").0 e) (Enough-nil 0))
      | inr e ↦ h (λ q. cc (eq_refl "", e, q))
    ]

    Follows-Enough :
        (i : StepInfo) (a b : ℕ)
        → i.next ≡ ""
        → Enough i.on_true a
        → Enough i.on_false b
        → (name : String) → Follows i name
        → Enough name (a + b)
    Follows-Enough i a b straight ta fb name (inl e) = rw e (Enough-nil (a + b))
    Follows-Enough i a b straight ta fb name (inr (inl e)) =
        rw e (Enough-more i.on_true a (a + b) (omega arith) ta)
    Follows-Enough i a b straight ta fb name (inr (inr (inl e))) =
        rw e (Enough-more i.on_false b (a + b) (omega arith) fb)
    Follows-Enough i a b straight ta fb name (inr (inr (inr e))) =
        rw (e ∙ straight) (Enough-nil (a + b))

    Below-step :
        (s : Step) (a b : ℕ)
        → (info s).next ≡ ""
        → Enough (info s).on_true a
        → Enough (info s).on_false b
        → Below (a + b) (some s)
    Below-step s a b straight ta fb t name e f =
        Follows-Enough (info s) a b straight ta fb name
          (subst (λ u. Follows (info u) name) {x = t} {y = s} (cc e) f)

    -- From a name where all paths of references end, some fuel is enough.
    Ends-Enough : (id : String) → Ends g id → Successor id
    Ends-Enough id (Acc.intro _ below) = elim (Option-cases (lookup id m)) [
      | inl missing ↦ (1, Enough-step id 0 (λ s name e f. cc missing))
      | inr (s, found) ↦
          let (a, ta) = successor (info s).on_true (λ h.
            Ends-Enough (info s).on_true
              (below _ (rw (agrees id s found) (true-edge (info s) h)))) in
          let (b, fb) = successor (info s).on_false (λ h.
            Ends-Enough (info s).on_false
              (below _ (rw (agrees id s found) (false-edge (info s) h)))) in
          (
            suc (a + b),
            Enough-step id (a + b) (rw found (Below-step s a b (flat id s found) ta fb)),
          )
    ]

-- No step of the list has a `next`.
abbrev pub Straight : List Step → Type 0
Straight = All (λ s. (info s).next ≡ "")

-- The fuel for the steps of an accepted list.
steps_loop-ends :
    (go : Go) (ext : Ext) (poll : M (Option Err)) (ctx : Context) (context : Fields)
    (steps : List Step) (id : String)
    → validate_no_cycles steps ≡ none
    → Straight steps
    → member id (ids steps) ≡ true
    → (n : ℕ) × Enough go ext poll (step_map steps []) ctx context id n
steps_loop-ends go ext poll ctx context steps id accepted straight known =
    Ends-Enough go ext poll (step_map steps []) ctx context (graph_of steps)
      (Agrees-build steps [] [] Agrees-nil)
      (All-lookup (λ s. (info s).next ≡ "") steps [] straight (λ k s e. unfold lookup in cc e)) id
      (accepted-Ends steps accepted id known)

conclude-returns :
    (go : Go) (ext : Ext) (on_error : Err → M (Option Err)) (r : RunResult) (w : World)
    → r ≢ out_of_fuel
    → (x : Option Err) × ((conclude go ext on_error r w).0 ≡ some x)
unfolding conclude
conclude-returns go ext on_error out_of_fuel w h = absurd (h refl)
conclude-returns go ext on_error (finished result none) w h = (none, refl)
conclude-returns go ext on_error (finished result (some e)) w h = ((on_error e w).0, refl)

execute_steps-ends :
    (go : Go) (ext : Ext) (flow : Workflow) (ctx : Context) (context : Fields) (w : World)
    → validate_no_cycles flow.definition.steps ≡ none
    → Straight flow.definition.steps
    → (n : ℕ) × ((execute_steps go ext n flow ctx context w).0 ≢ out_of_fuel)
unfolding execute_steps
execute_steps-ends go ext flow ctx context w accepted straight =
    elim (List-cases flow.definition.steps) [
      | inl e ↦ (0, rw (e, execute_steps) (λ p. cc))
      | inr (s, ss, e) ↦
          let (n, enough) =
            steps_loop-ends go ext (poll_context go ext ctx) ctx context (s ∷ ss) (info s).id
              (rw e at accepted) (rw e at straight) (rw (eq_refl (info s).id) refl) in
          (n, rw (e, execute_steps) (enough n (omega arith) result_executed w))
    ]

-- An execution of a workflow whose references go round in no circle, and none of whose steps has a
-- `next`, ends, whatever the calls outside of the engine answer: with some fuel `Execute` returns.
pub run_execution_ends :
    (go : Go) (ext : Ext) (text : String) (flow : Workflow) (ctx : Context) (context : Fields)
    (w : World)
    → validate_no_cycles flow.definition.steps ≡ none
    → Straight flow.definition.steps
    → (n : ℕ) × (x : Option Err) × ((run_execution go ext n text flow ctx context w).0 ≡ some x)
unfolding run_execution
run_execution_ends go ext text flow ctx context w accepted straight =
    let (n, ends) = execute_steps-ends go ext flow ctx context w accepted straight in
    let (x, e) =
      conclude-returns go ext (conclude_error go ext text ctx)
        (execute_steps go ext n flow ctx context w).0 (execute_steps go ext n flow ctx context w).1
        ends in
    (n, x, e)
