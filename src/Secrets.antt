-- ===== src/Secrets.antt =====
-- Secrets: internal/domain/secrets, internal/engine/secrets and the secret repository.
pub mod Store
pub mod Paths
pub mod Ttl
pub mod Engine
pub mod Tuning
pub mod Leases
pub mod Sql
pub mod DatabaseConfig
