-- ===== src/Adapters.antt =====
-- The in-memory adapters of nexus-workflow-core for the scheduler and the event bus.
pub mod Scheduler
pub mod EventBus
