-- ===== src/Examples.antt =====
-- Each theorem that has parameters, at a concrete input.
mod Inputs
mod Contexts
mod Approvals
mod Routes
mod Sockets
mod Resumptions
use intelligent_workflows.Prelude.{
  ℕ, ◌==◌, ◌-◌, ◌*◌, ◌^◌, String, ◌≡◌, ◌≢◌, ◌↔◌, refl, Bool, true, false, [], ◌∷◌, Option, none,
  some, ok, err, msg, Err, arith, All, ◌⊎◌,
}
use mathlib.Core.List.{Memᴰ}
use intelligent_workflows.Value.{pos, Value, int, list, nil, cons}
use intelligent_workflows.Models.Workflow.{no_conditions, more_conditions, info}
use intelligent_workflows.Models.Execution.{paused_status}
use intelligent_workflows.Evaluator.{evaluate, compare_values, get_field_value}
use intelligent_workflows.Evaluator.Path.{At, join, get_field_value-join_iff}
use intelligent_workflows.Evaluator.Logic.{Decided, Gives, evaluate-and_iff, evaluate-or_iff}
use intelligent_workflows.Evaluator.Operators.{
  ComparesBy, item_list, ordering_operators, in-contains_iff,
}
use intelligent_workflows.Validator.{validate, report, report_error}
use intelligent_workflows.Validator.Operators.{unsupported, compare_values-supported}
use intelligent_workflows.Validator.Accepts.{IsAccepted, validate-IsAccepted}
use intelligent_workflows.Validator.Cycles.{Search, references, search, validate_no_cycles}
use intelligent_workflows.Validator.Cycles.Paths.{Circle}
use intelligent_workflows.Validator.Cycles.Correct.{
  graph_of, validate_no_cycles_iff, search_returns,
}
use intelligent_workflows.Executor.Policy.{calculate_backoff, second}
use intelligent_workflows.Executor.Policy.Bounds.{calculate_backoff_exact}
use intelligent_workflows.Executor.Steps.{parallel_outcome}
use intelligent_workflows.Executor.Steps.Strategy.{Succeeds, parallel_outcome_iff}
use intelligent_workflows.Executor.Run.{run_execution}
use intelligent_workflows.Executor.Retry.{execute_step_with_retry}
use intelligent_workflows.Executor.Run.Next.{Follows, execute_step_with_retry-Follows}
use intelligent_workflows.Executor.Resume.{refused, resume_execution, resume_paused_execution}
use intelligent_workflows.Executor.Resume.Guards.{IsAwaited, resume_execution-refused}
use intelligent_workflows.Executor.Resume.Ending.{
  EndedAs, SafelyEndedAs, resume_execution-EndedAs, resume_paused_execution-SafelyEndedAs,
}
use intelligent_workflows.Executor.Start.{execute, execute-EndedAs}
use intelligent_workflows.Executor.Run.Termination.{run_execution_ends}
use Inputs.{
  number_text, go, is_new, check_step, two_steps, flow, context, started, waiting_one, ext, world,
  two_attempts, one, word, is_small, both, either,
}

compare_values-supported_example : compare_values go word "regex" word ≢ err (unsupported "regex")
compare_values-supported_example = compare_values-supported go word word "regex" refl

execute-EndedAs_example :
    EndedAs
      (execute go ext 3 none 1 flow "order.created" context world).0
      (execute go ext 3 none 1 flow "order.created" context world).1.execution
execute-EndedAs_example = execute-EndedAs go ext 3 none 1 flow "order.created" context world

resume_execution-EndedAs_example :
    EndedAs
      (resume_execution go ext 3 1 (some flow) none "order.paid" none world).0
      (resume_execution go ext 3 1 (some flow) none "order.paid" none world).1.execution
resume_execution-EndedAs_example =
    resume_execution-EndedAs go ext 3 1 (some flow) none "order.paid" none world

not-IsAwaited : ¬ IsAwaited "lost" waiting_one
not-IsAwaited (_, (s, e, f)) = cc

resume_execution-refused_example :
    (x : Err) × (resume_execution go ext 3 1 (some flow) none "lost" none world
      ≡ (refused x, record world { calls = 1 }))
resume_execution-refused_example =
    resume_execution-refused go ext 3 1 (some flow) none "lost" none waiting_one world refl
      not-IsAwaited

resume_paused_execution-SafelyEndedAs_example :
    SafelyEndedAs started
      (resume_paused_execution go ext 3 none world).0
      (resume_paused_execution go ext 3 none world).1.execution
resume_paused_execution-SafelyEndedAs_example =
    resume_paused_execution-SafelyEndedAs go ext 3 none world

not_blank : ◌≢◌ {A = String} "0" ""
not_blank e = cc

run_execution_ends_example :
    (n : ℕ) × (x : Option Err) × ((run_execution go ext n "30m0s" flow none context world).0
      ≡ some x)
unfolding validate_no_cycles references
run_execution_ends_example =
    run_execution_ends go ext "30m0s" flow none context world refl (refl, (refl, tt))

validate_no_cycles_iff_example :
    (validate_no_cycles two_steps ≡ none) ↔ ¬ Circle (graph_of two_steps)
validate_no_cycles_iff_example = validate_no_cycles_iff two_steps

search_returns_example : (r : Bool × Search) × (search two_steps ≡ some r)
search_returns_example = search_returns two_steps

validate-IsAccepted_example : IsAccepted flow
unfolding validate report report_error references
validate-IsAccepted_example = validate-IsAccepted go flow refl

execute_step_with_retry-Follows_example :
    Follows (info check_step) (execute_step_with_retry go ext check_step none context world).0.next
execute_step_with_retry-Follows_example =
    execute_step_with_retry-Follows go ext check_step none context world

parallel_outcome_iff_example :
    (parallel_outcome number_text "any_can_pass" (some (msg "no") ∷ none ∷ []) ≡ none)
    ↔ Succeeds "any_can_pass" (some (msg "no") ∷ none ∷ [])
parallel_outcome_iff_example =
    parallel_outcome_iff number_text "any_can_pass" (some (msg "no") ∷ none ∷ [])

calculate_backoff_exact_example :
    (calculate_backoff 2 none ≡ pos (2 ^ (2 - 1) * second))
    × (calculate_backoff 2 (some (record two_attempts { backoff = "" })) ≡ calculate_backoff 2 none)
    × (calculate_backoff 2 (some (record two_attempts { backoff = "exponential" }))
        ≡ calculate_backoff 2 none)
    × (calculate_backoff 2 (some (record two_attempts { backoff = "linear" })) ≡ pos (2 * second))
    × (calculate_backoff 3 none ≡ pos (2 * (2 ^ (2 - 1) * second)))
calculate_backoff_exact_example = calculate_backoff_exact 2 two_attempts (omega arith) (omega arith)

get_field_value-join_iff_example :
    (get_field_value (join "." ("o" ∷ "t" ∷ [])) context ≡ ok (int (pos 1)))
    ↔ At context ("o" ∷ "t" ∷ []) (int (pos 1))
get_field_value-join_iff_example =
    get_field_value-join_iff "o" ("t" ∷ []) context (int (pos 1)) ((refl, tt), ((refl, tt), tt))

ordering_operators_example :
    ComparesBy go one word "gt" (λ a b. go.float_lt b a ≡ true)
    × ComparesBy go one word "lt" (λ a b. go.float_lt a b ≡ true)
    × ComparesBy go one word "gte"
        (λ a b. (go.float_lt b a ≡ true) ⊎ ((go.sprint one == go.sprint word) ≡ true))
    × ComparesBy go one word "lte"
        (λ a b. (go.float_lt a b ≡ true) ⊎ ((go.sprint one == go.sprint word) ≡ true))
ordering_operators_example = ordering_operators go one word

in-contains_iff_example :
    (compare_values go word "in" (list (cons word nil))
      ≡ compare_values go (list (cons word nil)) "contains" word)
    × ((b : Bool) × (compare_values go word "in" (list (cons word nil)) ≡ ok b)
        × ((b ≡ true) ↔ (
            (x : Value) × Memᴰ x (item_list (cons word nil))
            × (compare_values go word "eq" x ≡ ok true))))
in-contains_iff_example = in-contains_iff go word (cons word nil)

evaluate-and_iff_example :
    ((evaluate go both context ≡ ok true) ↔ All (Gives go context true) (is_new ∷ is_small ∷ []))
    × ((evaluate go both context ≡ ok false)
        ↔ Decided go context true false (is_new ∷ is_small ∷ []))
evaluate-and_iff_example =
    evaluate-and_iff go context "" "" word is_new (more_conditions is_small no_conditions)
      no_conditions

evaluate-or_iff_example :
    ((evaluate go either context ≡ ok false)
      ↔ All (Gives go context false) (is_new ∷ is_small ∷ []))
    × ((evaluate go either context ≡ ok true)
        ↔ Decided go context false true (is_new ∷ is_small ∷ []))
evaluate-or_iff_example =
    evaluate-or_iff go context "" "" word is_new (more_conditions is_small no_conditions)
