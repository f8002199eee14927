-- ===== src/Engine/Safety.antt =====
-- Properties of every command of engine/ExecutionEngine.ts.
pub mod Tokens
pub mod Instance
pub mod Queue
pub mod Fuel
