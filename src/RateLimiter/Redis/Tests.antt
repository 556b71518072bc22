-- ===== src/RateLimiter/Redis/Tests.antt =====
-- Runs of the limiter of api/internal/ratelimiter/redis.go.
use zaas.Prelude.{List, ◌≡◌, ◌≢◌, refl, arith, String, str_eq, str_eq_iff, true, [], ◌∷◌}
use zaas.Prelude.Int.{pos}
use zaas.Prelude.Text.{show}
use zaas.RateLimiter.{answered}
use zaas.RateLimiter.Spec.{decide_window}
use zaas.RateLimiter.Redis.Server.{Call}
use zaas.RateLimiter.Redis.{SortedSet, redis_allow_n}
use zaas.RateLimiter.Redis.Decides.{scores}
use zaas.RateLimiter.Redis.Agrees.{run_script, member_of, redis_decides}

-- One member has left the window, one is in it.
abbrev two_members : SortedSet
two_members = record {
  members = (30_000, "30000:aa") ∷ (95_000, "95000:bb") ∷ [];
  expires_at = 155_000;
}

is_new : ◌≢◌ {A = String} "95000:bb" (member_of 100_000_000_000 "cc")
unfolding show
is_new e =
    let q : str_eq "95000:bb" (member_of 100_000_000_000 "cc") ≡ true = (str_eq_iff _ _).1 e in cc

redis_decides_example :
    ((redis_allow_n (run_script 100_000) "rate" (pos 2) 100_000_000_000 "cc" two_members).0
      ≡ answered record { allowed = true; remaining = pos 0; reset_at = 155_000_000_000 })
    × (scores
          (redis_allow_n
            (run_script 100_000)
            "rate"
            (pos 2)
            100_000_000_000
            "cc"
            two_members).1.members
        ≡ 95_000 ∷ 100_000 ∷ [])
unfolding decide_window
redis_decides_example =
    redis_decides 100_000 "rate" (pos 2) 100_000_000_000 "cc" two_members (omega arith) refl
      (omega arith) (record { past = omega arith; distinct = is_new }, tt)

-- Two calls that fill the rate, one too many, one of another key, and one after the window.
abbrev calls : List Call
calls =
    record { key = "a"; rpm = pos 2; now = 100_000_000_000; hex = "01" }
    ∷ record { key = "a"; rpm = pos 2; now = 100_500_000_000; hex = "02" }
    ∷ record { key = "a"; rpm = pos 2; now = 101_000_000_000; hex = "03" }
    ∷ record { key = "b"; rpm = pos 2; now = 101_000_000_000; hex = "04" }
    ∷ record { key = "a"; rpm = pos 2; now = 160_400_000_000; hex = "05" }
    ∷ []
