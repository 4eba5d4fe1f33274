-- ===== src/Api.antt =====
-- backend/src/security_review/api and the middleware of main.py
pub mod RateLimiter
pub mod Dependencies
pub mod Http
pub mod Endpoints
pub mod Stream
pub mod Application
pub mod Routers
