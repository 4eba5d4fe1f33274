-- ===== src/Domain.antt =====
-- The domain models: data carried by every other part, and the state machines of the entities.
pub mod Auth
pub mod Billing
pub mod Audit
pub mod Assessment
pub mod Finding
pub mod Repository
