-- ===== src/Engine.antt =====
-- The execution engine, nexus-workflow-core/src/engine/ExecutionEngine.ts.
pub mod State
pub mod Monad
pub mod Context
pub mod Scopes
pub mod Records
pub mod Definition
pub mod Moves
pub mod Boundaries
pub mod SubProcess
pub mod Compensation
pub mod MultiInstance
pub mod GatewayHandlers
pub mod Handlers
pub mod Loop
pub mod InstanceCommands
pub mod TaskCommands
pub mod EventCommands
pub mod Commands
pub mod Changes
pub mod Safety
pub mod Weights
pub mod Administration
