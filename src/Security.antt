-- ===== src/Security.antt =====
-- backend/src/security_review/infrastructure/security
pub mod OutboundUrl
pub mod Secrets
pub mod PublicUrl
pub mod PasswordHasher
