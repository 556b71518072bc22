-- ===== src/RateLimiter/Memory/Tests.antt =====
-- Concrete runs of the limiter of api/internal/ratelimiter/memory.go.
use zaas.Prelude.{some, false, ◌≡◌, ◌≤◌, List, [], ◌∷◌, length, keep, arith}
use zaas.Prelude.Int.{pos, pos_part}
use zaas.RateLimiter.{minute}
use zaas.RateLimiter.Spec.{Event, request, sweep, run_ideal, no_log, admitted, within}
use zaas.RateLimiter.Memory.{MemoryRateLimiter, new_memory_rate_limiter, allow_n, run_memory}
use zaas.RateLimiter.Memory.Refines.{memory_refines}
use zaas.RateLimiter.Memory.Limits.{memory_bound, IsInRange, allow_n-IsInRange}

-- Two keys, one request too many for the first, and one more after its window.
abbrev busy : List Event
busy =
    request "a" (pos 2) 10
    ∷ request "a" (pos 2) 20
    ∷ request "b" (pos 2) 30
    ∷ request "a" (pos 2) 40
    ∷ sweep 50
    ∷ request "a" (pos 2) 60_000_000_015
    ∷ []

abbrev fresh : MemoryRateLimiter
fresh = new_memory_rate_limiter (pos 2)

-- The limiter after one request of "a" at its rate of one.
abbrev full : MemoryRateLimiter
full = record {
  entries = λ key. some record { timestamps = 10 ∷ []; last_seen = 10 };
  rpm = pos 2;
  stopped = false;
}

memory_refines_example : run_memory busy fresh ≡ run_ideal minute busy no_log
memory_refines_example = memory_refines (pos 2) busy (ground arith)

memory_bound_example :
    length (keep (within minute 50) (admitted "a" busy (run_memory busy fresh))) ≤ pos_part (pos 2)
memory_bound_example = memory_bound (pos 2) "a" (pos 2) busy 50 (ground arith) (ground arith)

allow_n-IsInRange_example : IsInRange (pos 3) 20 (allow_n "a" (pos 3) 20 full).0
allow_n-IsInRange_example = allow_n-IsInRange "a" (pos 3) 20 full (ground arith)
