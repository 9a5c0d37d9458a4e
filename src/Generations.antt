-- ===== src/Generations.antt =====
-- The generations of a project's analysis (mas/state_coherence.py).
pub mod Tables
pub mod Lifecycle
pub mod Rows
pub mod Steps
pub mod Coherent
pub mod Promotion
pub mod Swap
pub mod Acceptance
mod Examples
