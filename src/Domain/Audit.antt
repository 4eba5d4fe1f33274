-- ===== src/Domain/Audit.antt =====
-- backend/src/security_review/domain/audit/models.py
use security_review_ai.Prelude.{ℕ, String}

pub record ConsentAuditEntry : Type 0 where
  pub id : ℕ
  pub organization_id : ℕ
  pub assessment_id : ℕ
  pub scan_job_id : ℕ
  pub agent_type : String
  pub target : String
  pub confirmed_by : String
  pub confirmed_at : ℕ
