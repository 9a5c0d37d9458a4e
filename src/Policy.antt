-- ===== src/Policy.antt =====
-- mas/policy.py: the deterministic policy layer that stands outside the language model's control.
pub mod Types
pub mod Budget
pub mod Breaker
pub mod Gate
pub mod Operator
pub mod PhaseRun
pub mod Admission
pub mod History
pub mod Metering
pub mod Steps
pub mod Guarantees
pub mod Requests
mod Examples
