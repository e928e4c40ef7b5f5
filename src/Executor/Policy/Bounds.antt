-- ===== src/Executor/Policy/Bounds.antt =====
-- Where the backoff (`calculateBackoff` of internal/engine/executor.go) is exact, and where the
-- multiplication of int64 values wraps.
use intelligent_workflows.Prelude.{
  ℕ, zero, suc, ◌-◌, ◌*◌, ◌^◌, ◌≤◌, ◌<◌, ◌≡◌, refl, none, some, arith, ap, ◌∙◌,
}
use native.Mathlib.Nat.{pow-le-pow_right, pow-suc}
use intelligent_workflows.Value.{pos}
use intelligent_workflows.Models.Workflow.{RetryConfig}
use intelligent_workflows.Executor.Policy.{second, two_63, int64_of, exponential, calculate_backoff}

int64_of-small : (n : ℕ) → n < two_63 → int64_of n ≡ pos n
unfolding int64_of
int64_of-small n h = ground arith

exponential-small : (attempt : ℕ) → attempt ≤ 34 → 2 ^ (attempt - 1) * second < two_63
exponential-small attempt h =
    let below : 2 ^ (attempt - 1) ≤ 2 ^ 33 =
      pow-le-pow_right (omega arith) {j = 33} (omega arith) in
    omega arith

suc_sub : (a : ℕ) → suc a - 1 ≡ a
suc_sub a = omega arith

pow_double : (a : ℕ) → 1 ≤ a → 2 ^ a ≡ 2 * 2 ^ (a - 1)
pow_double zero h = absurd (omega arith)
pow_double (suc a) h =
    let same : suc a - 1 ≡ a = omega arith in rw same (omega (arith, pow-suc 2 a))

exponential-double :
    (attempt : ℕ)
    → 1 ≤ attempt
    → attempt < 34
    → exponential (suc attempt) ≡ pos (2 * (2 ^ (attempt - 1) * second))
unfolding exponential
exponential-double attempt h k =
    let value : 2 ^ (suc attempt - 1) * second ≡ 2 * (2 ^ (attempt - 1) * second) =
      rw (suc_sub attempt) (omega (arith, pow_double attempt h)) in
    int64_of-small _ (exponential-small (suc attempt) k) ∙ ap pos value

-- Before the 34th attempt the wait before an attempt, which is exponential in its number by default
-- and linear on request, is exact: no multiplication wraps, and the next attempt waits twice as long.
pub calculate_backoff_exact :
    (attempt : ℕ) (r : RetryConfig)
    → 1 ≤ attempt
    → attempt < 34
    → (calculate_backoff attempt none ≡ pos (2 ^ (attempt - 1) * second))
      × (calculate_backoff attempt (some (record r { backoff = "" }))
          ≡ calculate_backoff attempt none)
      × (calculate_backoff attempt (some (record r { backoff = "exponential" }))
          ≡ calculate_backoff attempt none)
      × (calculate_backoff attempt (some (record r { backoff = "linear" }))
          ≡ pos (attempt * second))
      × (calculate_backoff (suc attempt) none ≡ pos (2 * (2 ^ (attempt - 1) * second)))
unfolding calculate_backoff
calculate_backoff_exact attempt r h k = (
  int64_of-small _ (exponential-small attempt (omega arith)),
  refl,
  refl,
  int64_of-small _ (omega arith),
  exponential-double attempt h k,
)
