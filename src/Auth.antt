-- ===== src/Auth.antt =====
-- Authorization: internal/auth and internal/domain/auth.
pub mod Glob
pub mod Policy
pub mod Conditions
pub mod Rbac
pub mod Lockout
pub mod Roles
