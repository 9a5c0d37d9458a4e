-- ===== src/EvidenceUse.antt =====
-- mas/research_evidence/automation_roi_use_policy.py: the evidence-use policy of the ROI calculation.
pub mod Policy
pub mod Verdict
pub mod Satisfaction
mod Examples
