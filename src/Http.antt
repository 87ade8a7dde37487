-- ===== src/Http.antt =====
-- libs/holahost-http: the platform's middleware.
pub mod RateLimiter
pub mod RateLimit
pub mod RequestId
pub mod BodyLimit
