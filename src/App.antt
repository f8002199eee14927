-- ===== src/App.antt =====
-- The workflow service, nexus-workflow-app.
pub mod LoginThrottle
