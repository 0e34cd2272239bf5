-- ===== src/Attention.antt =====
-- Which observations are worth cognition: apps/runtime/src/lilavel_runtime/attention.py.
pub mod Types
pub mod Policy
pub mod Gate
pub mod Verdicts
pub mod Signals
pub mod Reason
pub mod Chosen
pub mod Collect
pub mod Thinks
pub mod Decide
pub mod Direct
pub mod Tests
