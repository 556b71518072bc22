-- ===== src/RateLimiter/Redis/Refines.antt =====
-- The limiter of api/internal/ratelimiter/redis.go over sequences of calls against the ideal one.
use zaas.RateLimiter.Redis.Sim.{Sim}
