-- ===== src/Access.antt =====
-- Who may call the service (internal/api/rest/middleware/rbac.go).
pub mod Guards
pub mod Granted
