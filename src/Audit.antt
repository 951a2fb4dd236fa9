-- ===== src/Audit.antt =====
-- Audit: internal/audit, internal/domain/audit and internal/repository/memory/audit_repository.go.
pub mod Redact
pub mod AuthFields
pub mod Chain
pub mod Verify
