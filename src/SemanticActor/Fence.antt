-- ===== src/SemanticActor/Fence.antt =====
-- The request fences: what is in flight and what has settled in the current session.
pub mod Operations
pub mod Worker
pub mod Calls
pub mod Steps
