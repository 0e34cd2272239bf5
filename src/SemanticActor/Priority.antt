-- ===== src/SemanticActor/Priority.antt =====
-- The two lanes, and the preemption of non-user work by user work.
pub mod Invariant
pub mod Steps
