-- ===== src/Executor/Steps/Strategy.antt =====
-- The strategies of a parallel step (`executeParallelStep` of internal/engine/executor.go).
use mathlib.Core.List.{Memᴰ}
use mathlib.Core.List.Memᴰ
use intelligent_workflows.Prelude.{
  ℕ, suc, String, ◌≡◌, ◌↔◌, ◌⊎◌, inl, inr, refl, List, [], ◌∷◌, Option, none, some, arith, Err, All,
  eq_iff,
}
use intelligent_workflows.Executor.Steps.{first_failure, any_passed, parallel_outcome}

first_failure_iff :
    (number : ℕ → String) (i : ℕ) (results : List (Option Err))
    → (first_failure number i results ≡ none) ↔ All (λ r. r ≡ none) results
unfolding first_failure
first_failure_iff number i [] = (λ h. tt, λ h. refl)
first_failure_iff number i (none ∷ rs) =
    let (to, from) = first_failure_iff number (suc i) rs in (λ h. (refl, to h), λ h. from h.1)
first_failure_iff number i (some e ∷ rs) = (λ h. cc, λ h. cc h.0)

any_passed_iff : (results : List (Option Err)) → (any_passed results ≡ none) ↔ Memᴰ none results
unfolding any_passed
any_passed_iff [] = (λ h. cc, λ m. absurd (Memᴰ.not-nil m))
any_passed_iff (none ∷ rs) = (λ h. Memᴰ.head refl, λ m. refl)
any_passed_iff (some e ∷ rs) =
    let (to, from) = any_passed_iff rs in
    (λ h. Memᴰ.tail (to h), λ m. elim (Memᴰ.cases_cons m) [ inl x ↦ cc | inr r ↦ from r ])

-- When a parallel step with the given strategy succeeds, by the errors of the steps in it.
abbrev pub Succeeds : String → List (Option Err) → Type 0
Succeeds strategy results =
    (((strategy ≡ "") ⊎ (strategy ≡ "all_must_pass")) × All (λ r. r ≡ none) results)
    ⊎ (((strategy ≡ "any_can_pass") × Memᴰ none results) ⊎ (strategy ≡ "best_effort"))

parallel_outcome-Succeeds :
    (number : ℕ → String) (strategy : String) (results : List (Option Err))
    → Succeeds strategy results
    → parallel_outcome number strategy results ≡ none
unfolding parallel_outcome
parallel_outcome-Succeeds number strategy results (inl (inl e, h)) =
    rw (e, parallel_outcome) ((first_failure_iff number 0 results).1 h)
parallel_outcome-Succeeds number strategy results (inl (inr e, h)) =
    rw (e, parallel_outcome) ((first_failure_iff number 0 results).1 h)
parallel_outcome-Succeeds number strategy results (inr (inl (e, h))) =
    rw (e, parallel_outcome) ((any_passed_iff results).1 h)
parallel_outcome-Succeeds number strategy results (inr (inr e)) = rw (e, parallel_outcome) refl

-- A parallel step succeeds exactly when its strategy is `all_must_pass` or empty and every step in
-- it succeeds, its strategy is `any_can_pass` and some step in it succeeds, or its strategy is
-- `best_effort`.
pub parallel_outcome_iff :
    (number : ℕ → String) (strategy : String) (results : List (Option Err))
    → (parallel_outcome number strategy results ≡ none) ↔ Succeeds strategy results
unfolding parallel_outcome
parallel_outcome_iff number s results = (
  λ h. ground (
    arith,
    eq_iff s "",
    eq_iff s "all_must_pass",
    eq_iff s "any_can_pass",
    eq_iff s "best_effort",
    first_failure_iff number 0 results,
    any_passed_iff results,
  ),
  parallel_outcome-Succeeds number s results,
)
