-- ===== src/RateLimiter/Redis/Limits.antt =====
-- What a caller of the limiter of api/internal/ratelimiter/redis.go can rely on over time.
use zaas.Prelude.{ℕ, String, Bool, false, ◌&&◌, List, [], ◌∷◌, str_eq, if◌then◌else◌}
use zaas.RateLimiter.{Answer, answered, failed}
use zaas.RateLimiter.Redis.Server.{Call, call_ms}

abbrev is_admitted : Answer → Bool
is_admitted failed = false
is_admitted (answered r) = r.allowed

-- The times, in milliseconds, of the calls for `key` that were allowed.
unfoldable pub admitted_calls : String → List Call → List Answer → List ℕ
admitted_calls key [] answers = []
admitted_calls key (c ∷ cs) [] = []
admitted_calls key (c ∷ cs) (a ∷ answers) =
    if str_eq c.key key && is_admitted a
    then call_ms c ∷ admitted_calls key cs answers
    else admitted_calls key cs answers
