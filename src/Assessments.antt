-- ===== src/Assessments.antt =====
-- backend/src/security_review/application/assessment_service.py: the operations of
-- `AssessmentService`, in three files after what they touch.
pub mod Status
pub mod Webhook
pub mod Service
pub mod Scans
pub mod Report
pub mod Limits
pub mod Isolation
pub mod Tenants
