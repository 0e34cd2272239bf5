-- ===== src/Temporal.antt =====
-- One-shot wakes: apps/runtime/src/lilavel_runtime/temporal.py.
pub mod Types
pub mod Coordinator
pub mod Trim
pub mod Admission
pub mod Dispatch
pub mod Invariant
pub mod History
pub mod Existing
pub mod Admit
pub mod Commit
pub mod Accept
pub mod Settle
pub mod Cancel
pub mod Due
pub mod Fire
pub mod Order
pub mod Deadline
pub mod Collision
pub mod Tests
pub mod Apply
pub mod Calls
