-- ===== src/RateLimiter.antt =====
-- api/internal/ratelimiter/interface.go: what a limiter answers.
-- A `time.Time` is a number of nanoseconds since the Unix epoch.
pub mod Spec
pub mod Memory
pub mod Redis
use zaas.Prelude.{ℕ, Bool, String}
use zaas.Prelude.Int.{ℤ}

pub record Result : Type 0 where
  pub allowed : Bool
  pub remaining : ℤ
  pub reset_at : ℕ

-- `time.Minute`
abbrev pub minute : ℕ
minute = 60_000_000_000

-- What a call of a limiter gives: `(Result, error)`.
pub data Answer : Type 0 where
  answered : Result → Answer
  failed : Answer

-- `interface RateLimiter`, over the state of the world in which a limiter lives. The time of the
-- call, which an implementation reads from the clock, is an argument.
pub record RateLimiter (S : Type 0) : Type 0 where
  pub allow : String → ℕ → S → Answer × S
  pub allow_n : String → ℤ → ℕ → S → Answer × S
