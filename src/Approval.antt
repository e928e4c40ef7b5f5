-- ===== src/Approval.antt =====
-- Approval requests: their table (internal/repository/postgres/approval_repository.go) and the
-- service that decides them (internal/services/approval_service.go).
pub mod Store
pub mod Service
pub mod Table
pub mod Decision
pub mod Selection
pub mod Listing
pub mod Paging
pub mod Sorting
pub mod Late
pub mod History
pub mod Creation
pub mod Expiry
pub mod Announcement
