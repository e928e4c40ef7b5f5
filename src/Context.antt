-- ===== src/Context.antt =====
-- The context builder (internal/engine/context.go): loading resources into the context of an
-- execution, from the cache in Redis or from a service. EnrichContext and ClearCache are left out.
pub mod State
pub mod Builder
pub mod Loading
pub mod Requests
