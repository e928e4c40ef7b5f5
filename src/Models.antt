-- ===== src/Models.antt =====
-- The data of internal/models.
pub mod Workflow
pub mod Approval
pub mod Event
pub mod Execution
