-- ===== src/Policy.antt =====
-- vaaet-core/src/vaaet/inference/policy.py
pub mod Stable
pub mod Incident
mod Examples
