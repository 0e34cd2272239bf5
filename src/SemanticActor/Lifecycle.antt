-- ===== src/SemanticActor/Lifecycle.antt =====
-- How the lifecycle state, the worker task and the active record belong together.
pub mod Invariant
pub mod Worker
pub mod Calls
pub mod Steps
pub mod Failure
