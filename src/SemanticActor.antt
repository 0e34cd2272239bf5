-- ===== src/SemanticActor.antt =====
-- The semantic actor, apps/runtime/src/lilavel_runtime/semantic_actor.py: one worker, a bounded
-- mailbox with a user and a non-user lane, request fences, preemption and poisoning.
pub mod Types
pub mod State
pub mod Admission
pub mod Worker
pub mod Machine
pub mod Fenced
pub mod Frame
pub mod Lifecycle
pub mod Fence
pub mod Priority
pub mod Cancelled
pub mod Silenced
pub mod Honoured
pub mod Guarantees
pub mod AdmissionContract
mod Tests
