-- ===== src/Executor/Policy.antt =====
-- Retries, backoff and timeouts (`calculateBackoff`, `isRetryableError`, `parseTimeout` and
-- `getWorkflowTimeout` of internal/engine/executor.go). A duration is an `int64` of nanoseconds.
pub mod Bounds
use intelligent_workflows.Prelude.{
  ℕ, suc, ◌-◌, ◌*◌, ◌%◌, ◌^◌, String, Bool, true, false, ◌||◌, List, [], ◌∷◌, Option, none, some,
  ◌==◌, if◌then◌else◌, ltb, Err, error_text, ok, err,
}
use intelligent_workflows.Value.{ℤ, pos, negsuc, float64, int, Fields, get, Go}
use intelligent_workflows.Models.Workflow.{RetryConfig, Workflow}

abbrev pub two_64 : ℕ
two_64 = 2 ^ 64

abbrev pub two_63 : ℕ
two_63 = 2 ^ 63

abbrev pub second : ℕ
second = 1000000000

-- The int64 with the bits of the number.
unfoldable pub int64_of : ℕ → ℤ
int64_of n = let r = n % two_64 in if ltb r two_63 then pos r else negsuc (two_64 - 1 - r)

-- `x * time.Second`, with the wrap-around of int64
unfoldable pub seconds : ℤ → ℤ
unfolding int64_of
seconds (pos n) = int64_of (n * second)
seconds (negsuc n) = int64_of (two_64 - suc n * second % two_64)

-- `time.Duration(1<<uint(attempt-1)) * time.Second`
unfoldable pub exponential : ℕ → ℤ
unfolding int64_of
exponential attempt = int64_of (2 ^ (attempt - 1) * second)

unfoldable pub backoff_named : String → ℕ → ℤ
unfolding exponential seconds
backoff_named name attempt =
    if name == ""
    then exponential attempt
    else if name == "linear"
    then seconds (pos attempt)
    else if name == "exponential"
    then exponential attempt
    else pos second

unfoldable pub calculate_backoff : ℕ → Option RetryConfig → ℤ
unfolding backoff_named
calculate_backoff attempt none = exponential attempt
calculate_backoff attempt (some r) = backoff_named r.backoff attempt

-- The loop over `retryOn`; the two texts that the code compares are both `err.Error()`.
abbrev pub matches_any : String → List String → Bool
matches_any text [] = false
matches_any text (pattern' ∷ rest) =
    (pattern' == "*") || ((text == pattern') || matches_any text rest)

unfoldable pub is_retryable_error : Err → List String → Bool
unfolding error_text
is_retryable_error e [] = true
is_retryable_error e (p ∷ ps) = matches_any (error_text e) (p ∷ ps)

-- A duration, or the default if it is not positive.
abbrev pub positive_or : ℤ → ℤ → ℤ
positive_or default (pos n) = if ltb 0 n then pos n else default
positive_or default (negsuc n) = default

module _ (go : Go) where
  unfoldable pub parse_timeout : String → ℤ → ℤ
  parse_timeout text default =
      if text == ""
      then default
      else elim (go.parse_duration text) [ err e ↦ default | ok d ↦ positive_or default d ]

  -- `timeout_seconds` of the trigger's data: `none` where it gives no timeout.
  unfoldable pub trigger_timeout : Option Fields → Option ℤ
  unfolding get seconds
  trigger_timeout none = none
  trigger_timeout (some m) = elim (get "timeout_seconds" m) [
    | some (float64 x) ↦ if go.float_lt 0 x then some (seconds (go.int64_of_float x)) else none
    | some (int (pos n)) ↦ if ltb 0 n then some (seconds (pos n)) else none
    | _ ↦ none
  ]

  abbrev pub default_timeout : ℤ
  default_timeout = pos (30 * second)

  unfoldable pub get_workflow_timeout : Workflow → ℤ
  unfolding parse_timeout trigger_timeout
  get_workflow_timeout w = elim (parse_timeout w.definition.timeout (pos 0)) [
    | pos (suc n) ↦ pos (suc n)
    | _ ↦ elim (trigger_timeout w.definition.trigger.payload) [
      | some t ↦ t
      | none ↦ default_timeout
    ]
  ]
