-- ===== src/Executor.antt =====
-- The workflow executor (internal/engine/executor.go and internal/engine/action_executor.go).
-- `State` has the state and the outside calls; `Actions` is the action executor, with its handlers
-- that call out in `Calls` and its variables in `Interpolation`; `Policy` has retries and timeouts,
-- `Steps` a single step, `Retry` the attempts at a step, `Run` the loops over steps and the outcome
-- of an execution, `Start` and `Resume` its two entries.
pub mod State
pub mod Interpolation
pub mod Calls
pub mod Actions
pub mod Policy
pub mod Steps
pub mod Retry
pub mod Run
pub mod Resume
pub mod Start
