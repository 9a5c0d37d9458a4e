-- ===== src/Knowledge.antt =====
-- mas/knowledge/freshness.py and the policies of mas/knowledge/registry.py.
pub mod Freshness
pub mod Ageing
pub mod Refresh
pub mod Health
pub mod Counts
mod Examples
