-- ===== src/Vcs.antt =====
-- backend/src/security_review/infrastructure/vcs
pub mod GitIngestion
