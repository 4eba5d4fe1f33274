-- ===== src/Persistence.antt =====
-- The four repositories of backend/src/security_review/infrastructure/persistence, as functions on
-- their tables. The SQL engine is not modelled: a table is the list of its rows in order of
-- insertion, and each statement is the list operation that it denotes.
pub mod Users
pub mod Resets
pub mod AuditLog
pub mod Assessments
