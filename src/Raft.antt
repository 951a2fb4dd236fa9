-- ===== src/Raft.antt =====
-- internal/raft and internal/repository/dragonboat: the replicated state machine and its client.
pub mod Ops
pub mod Values
pub mod Store
pub mod Reply
pub mod PkiHandlers
pub mod SecretHandlers
pub mod AccessHandlers
pub mod Machine
pub mod Client
pub mod SecretsAdapters
pub mod AccessAdapters
pub mod Tests
