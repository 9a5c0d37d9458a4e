-- ===== src/Roi.antt =====
-- mas/knowledge/automation_roi/calculator.py: the deterministic ROI engine.
pub mod Inputs
pub mod Calculator
pub mod Shape
pub mod Status
pub mod Results
pub mod Digest
pub mod Request
mod Examples
