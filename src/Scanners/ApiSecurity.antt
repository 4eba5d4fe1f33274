-- ===== src/Scanners/ApiSecurity.antt =====
-- api_security_agent.py
pub mod Json
pub mod Jwt
pub mod Hidden
pub mod RateLimiting
pub mod Specs
pub mod Live
pub mod Scope
