-- ===== src/Runs.antt =====
-- mas/runtime/run_state.py: durable workflow run state and active-run guards.
pub mod Record
pub mod Memory
pub mod Table
pub mod Acquire
pub mod Unique
pub mod Acquisition
pub mod Recovery
pub mod Guard
pub mod Updates
mod Examples
