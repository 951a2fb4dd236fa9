-- ===== src/Operator.antt =====
-- Operator: the decisions of internal/operator.
pub mod Renew
