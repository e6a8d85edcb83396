-- ===== src/Security.antt =====
-- src/security: the rate limiter and the API key check.
pub mod RateLimiter
pub mod ApiKey
