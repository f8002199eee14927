-- ===== src/Store.antt =====
-- The in-memory state store of nexus-workflow-core.
pub mod State
pub mod Operations
pub mod Versions
pub mod Transactions
pub mod Tokens
pub mod Queries
