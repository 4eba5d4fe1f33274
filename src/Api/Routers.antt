-- ===== src/Api/Routers.antt =====
-- backend/src/security_review/api/routers
pub mod Assessments
pub mod Accounts
pub mod Plans
