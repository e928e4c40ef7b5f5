-- ===== src/Lib.antt =====
-- The verification library of intelligent-workflows, a workflow engine in Go.
--
-- The program stores workflow definitions, validates them, and runs them on events, schedules or
-- requests. A workflow is a list of steps that refer to one another by ID. The validator checks a
-- definition when it is stored; the executor walks from step to step, evaluates conditions against
-- the execution context with the evaluator, runs actions with the action executor, and keeps the
-- record of the execution and of each step in a repository. The event router starts the workflows
-- that an event matches. A step may ask for an approval: the approval service keeps the request, and
-- its decision lets the resumer continue the execution. The executor and the approval service
-- announce what happens through the hub of the connected clients. The middleware decides who may
-- call the service.
--
-- Files and the code that they model:
--   Value        Go's dynamic values and maps; `Go` collects what is called in the standard library
--   Models       internal/models/workflow.go, rule.go, execution.go, event.go and approval.go
--   Evaluator    internal/engine/evaluator.go: one function for each of its functions
--     Logic        And and Or clauses;  Path  dotted field paths;  Operators  the comparisons
--   Validator    internal/validators/workflow_validator.go
--     Cycles       validateNoCycles, with child modules for the graph, the invariant of the search,
--                  its calls and its correctness
--     Accepts      accepted workflows, with the lemmas on messages in Reports and on parallel and
--                  execute steps in Configured;  Operators  the accepted operators, against the evaluator
--   Executor     internal/engine/executor.go and internal/engine/action_executor.go
--     State        the world that the functions share, and the calls out of the engine
--     Interpolation  interpolateVariables and getContextValue
--     Calls        the handlers of webhook and create_approval_request
--     Actions      ExecuteAction and the other handlers
--     Policy       backoff, retryable errors, timeouts
--     Steps        a single step; Steps/Dispatch is executeStep, with the steps that contain steps
--     Retry        executeStepWithRetry
--     Run          the loops over steps, completion;
--                  Pausing, Next and Termination are theorems about them
--     Resume       ResumeExecution and ResumePausedExecution; Resume/Pause is PauseCurrentExecution,
--                  Guards, Ending and Waiting are theorems
--     Start        Execute
--   Context      internal/engine/context.go: State has what the builder calls and keeps, Builder its
--                functions, Loading and Requests are theorems
--   Events       internal/engine/event_router.go: Router has its functions, Matching, Routing and
--                Running are theorems
--   Resumer      internal/services/workflow_resumer.go; Pausing and Resuming are theorems
--   Approval     internal/services/approval_service.go and
--                internal/repository/postgres/approval_repository.go
--     Store        the queries of the repository, on the rows of the table;  Table  theorems on them
--     Service      the functions of the service that write;  Listing  the queries that list rows
--     The other modules are theorems on creation, decisions, expiration, histories and pages.
--   Websocket    internal/websocket: Client has subscriptions, filters and requests, Hub the loop of
--                the hub; the other modules are theorems on them
--   Access       internal/api/rest/middleware/rbac.go: Guards has the checks, Granted the theorems
--   Prelude      errors, texts, lists, maps and tests that the components share
--   Examples     small inputs, on which the theorems are applied
--
-- State and calls. A function of the executor that changes state is a function from a `World`: the
-- execution object that the Go functions share by a pointer, the writes to the repository, the sleeps
-- and the broadcasts. What it calls out of the engine (clock, identifiers, repository, rule service,
-- HTTP, approvals, the context builder, the error of a context) is in the record `Ext`, and may
-- answer each numbered call differently. The resumer acts on the same world. The approval service acts
-- on the rows of its table, and logs its calls of the notification service, the audit service and the
-- resumer; the event router logs the workflows that it starts, and the context builder its
-- requests, waits and writes to the cache; a record `Services` answers their other calls. The executor
-- takes the building of a context as a parameter. The hub keeps its clients as objects with numbers,
-- to which its maps refer, since a client that is removed from a map may still be used by the
-- goroutines of its connection; the messages of its loop are the rules of a step relation,
-- `Reachable`. An error is a value of `Err`, which keeps whether an error is wrapped.
-- Evaluator.ResolveVariable is not in the repository and is a parameter too.
--
-- Bounds and fuel. The recursion of hasCycle has as fuel the number of names in the graph, which is
-- enough: every call visits a new name. The loop over the steps has fuel, since `next` may lead round in
-- a circle; `out_of_fuel` marks that it ran out. Durations are int64 values with their wrap-around.
-- Times are nanoseconds on a clock that does not run backwards, as Go's monotonic clock.
--
-- Not modelled: logging, metrics and audit entries; the interleaving of the goroutines of a parallel
-- step, which run in the order of the list; the goroutines that read and write a connection of the
-- hub, its statistics and what it publishes to Redis; the rounding of times by the database; the
-- context builder's EnrichContext and ClearCache; the services of rules, schedules, users, audits,
-- notifications and language models; the workers; the other repositories; the HTTP handlers and the
-- command line.
pub mod Prelude
pub mod Value
pub mod Models
pub mod Evaluator
pub mod Validator
pub mod Executor
pub mod Approval
pub mod Resumer
pub mod Websocket
pub mod Context
pub mod Events
pub mod Access
mod Examples
