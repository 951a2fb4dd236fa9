-- ===== src/Backup.antt =====
-- internal/backup: snapshots of the repositories, over the in-memory repositories.
pub mod Snapshot
pub mod Convert
pub mod ConvertAccess
pub mod Export
pub mod Validate
pub mod Restore
pub mod Tests
