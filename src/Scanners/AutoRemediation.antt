-- ===== src/Scanners/AutoRemediation.antt =====
-- auto_remediation_agent.py
pub mod Patch
pub mod PullRequest
pub mod Run
