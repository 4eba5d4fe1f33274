-- ===== src/Scanners.antt =====
-- backend/src/security_review/infrastructure/scanners and core/agent.py
pub mod Factory
pub mod Report
pub mod RedTeam
pub mod Cloud
pub mod BlueTeam
pub mod Web
pub mod BlackBox
pub mod ApiSecurity
pub mod AutoRemediation
