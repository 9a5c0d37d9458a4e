-- ===== src/Events.antt =====
-- mas/decision_events.py: the append-only log of decisions.
pub mod Event
pub mod Log
pub mod Chain
pub mod Tamper
pub mod Replay
pub mod History
mod Examples
