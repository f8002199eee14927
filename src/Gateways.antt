-- ===== src/Gateways.antt =====
-- The gateway rules of nexus-workflow-core/src/gateways.
pub mod Exclusive
pub mod Inclusive
pub mod Parallel
pub mod EventBased
