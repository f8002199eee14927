-- ===== src/Engine/Administration.antt =====
-- The commands that administer an instance, and the interruption of a task.
pub mod Status
pub mod Refusals
pub mod Cancellation
pub mod Failure
pub mod Interruption
