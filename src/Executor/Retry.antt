-- ===== src/Executor/Retry.antt =====
-- The attempts at a step (`executeStepWithRetry` of internal/engine/executor.go).
use intelligent_workflows.Prelude.{
  ℕ, zero, suc, ◌+◌, String, Bool, false, not, [], ◌∷◌, Option, none, some, ◌==◌, if◌then◌else◌,
  ltb, Err, msg, wrap, concat,
}
use intelligent_workflows.Value.{pos, int, Fields, Go}
use intelligent_workflows.Models.Workflow.{RetryConfig, StepInfo, Step, info}
use intelligent_workflows.Executor.State.{
  Ext, M, ◌>>=◌, ◌>>◌, return, ask, CtxErr, deadline_exceeded, Context, time_now, sleep,
}
use intelligent_workflows.Executor.Policy.{calculate_backoff, is_retryable_error, parse_timeout}
use intelligent_workflows.Executor.Steps.{StepOutcome, failed_with}
use intelligent_workflows.Executor.Steps.Dispatch.{execute_step}

-- `context.WithTimeout`: the earlier of the two deadlines.
abbrev pub with_deadline : Context → ℕ → Context
with_deadline none d = some d
with_deadline (some c) d = if ltb d c then some d else some c

abbrev pub deadline_error : Err
deadline_error = msg "context deadline exceeded"

abbrev pub max_attempts : Option RetryConfig → ℕ
max_attempts none = 1
max_attempts (some r) = elim r.max_attempts [ pos (suc n) ↦ suc n | _ ↦ 1 ]

-- `step.Retry != nil && !isRetryableError(err, step.Retry.RetryOn)`
abbrev pub gives_up : Option RetryConfig → Err → Bool
gives_up none e = false
gives_up (some r) e = not (is_retryable_error e r.retry_on)

abbrev pub exhausted : (ℕ → String) → Option RetryConfig → Err → StepOutcome
exhausted number retry e =
    failed_with
      (wrap (concat ("step failed after " ∷ number (max_attempts retry) ∷ " attempts" ∷ [])) e)

module _ (go : Go) (ext : Ext) where
  abbrev pub decimal : ℕ → String
  decimal n = go.sprint (int (pos n))

  -- A step-level timeout is set only where it parses to a positive duration.
  unfoldable pub step_context : StepInfo → Context → M Context
  unfolding parse_timeout time_now
  step_context i ctx =
      if i.timeout == "" then return ctx else elim (parse_timeout go i.timeout (pos 0)) [
        | pos (suc d) ↦ do t ← time_now ext; return (with_deadline ctx (t + suc d))
        | _ ↦ return ctx
      ]

  -- The wait before the attempt with the given number.
  unfoldable pub back_off : ℕ → Option RetryConfig → M (Unit {0})
  unfolding calculate_backoff sleep
  back_off attempt retry =
      if ltb 1 attempt then sleep (calculate_backoff attempt retry) else return tt

  -- What follows a failed attempt; `again` is the rest of the loop.
  unfoldable pub after_failure : StepInfo → CtxErr → Err → M StepOutcome → M StepOutcome
  unfolding is_retryable_error
  after_failure i deadline_exceeded e again =
      return (failed_with (wrap (concat ("step " ∷ i.id ∷ " timed out" ∷ [])) deadline_error))
  after_failure i c e again =
      if gives_up i.retry e then return (exhausted decimal i.retry e) else again

  -- What follows an attempt with the given error; `again` is the rest of the loop.
  unfoldable pub attempt_ended :
      StepInfo → Context → StepOutcome → (Err → M StepOutcome) → Option Err → M StepOutcome
  unfolding after_failure
  attempt_ended i ctx o again none = return o
  attempt_ended i ctx o again (some e) = do c ← ask (ext.ctx_err ctx); after_failure i c e (again e)

  -- The loop over the attempts; `left` is the number of attempts still to be made.
  unfoldable pub attempts : StepInfo → M StepOutcome → Context → ℕ → ℕ → Err → M StepOutcome
  unfolding back_off attempt_ended
  attempts i run ctx zero attempt last = return (exhausted decimal i.retry last)
  attempts i run ctx (suc left) attempt last = do
    back_off attempt i.retry
    o ← run
    attempt_ended i ctx o (attempts i run ctx left (suc attempt)) o.error

  -- `lastErr` is nil before the first attempt, and there is at least one.
  unfoldable pub execute_step_with_retry : Step → Context → Fields → M StepOutcome
  unfolding step_context attempts
  execute_step_with_retry s ctx context = do
    ctx' ← step_context (info s) ctx
    attempts (info s) (execute_step go ext s ctx' context) ctx' (max_attempts (info s).retry) 1
        (msg "")
