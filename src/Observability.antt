-- ===== src/Observability.antt =====
-- server/internal/observability: of this package, the rate limiter.
pub mod RateLimiter
