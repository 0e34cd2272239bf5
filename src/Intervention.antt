-- ===== src/Intervention.antt =====
-- Ambient intervention: apps/runtime/src/lilavel_runtime/intervention.py, and the reason codes it
-- takes from apps/core/src/lilavel_core/cognition.py.
pub mod Reasons
pub mod Types
pub mod Accounting
pub mod Policy
pub mod Bounded
pub mod Permission
pub mod Budget
mod Tests
