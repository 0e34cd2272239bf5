-- ===== src/UserDisposition.antt =====
-- The disposition of direct user turns: apps/runtime/src/lilavel_runtime/user_disposition.py, with
-- the resolution that it records, of apps/core/src/lilavel_core/cognition.py.
pub mod Types
pub mod Resolver
pub mod Recording
pub mod Fallback
mod Tests
