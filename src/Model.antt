-- ===== src/Model.antt =====
-- The data model of the engine: nexus-workflow-core/src/model and the events of src/interfaces.
pub mod Types
pub mod Elements
pub mod Events
pub mod Errors
