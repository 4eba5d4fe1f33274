-- ===== src/Billing.antt =====
-- Plans, payment providers, usage limits.
pub mod Payment
pub mod Service
