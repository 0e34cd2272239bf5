-- ===== src/Mind.antt =====
-- The runtime's mind state: apps/runtime/src/lilavel_runtime/mind.py.
pub mod State
pub mod Room
pub mod Batches
pub mod Invariant
pub mod Marking
mod Tests
