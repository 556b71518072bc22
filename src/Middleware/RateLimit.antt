-- ===== src/Middleware/RateLimit.antt =====
-- `RateLimit` of api/internal/middleware/ratelimit.go. The counters of the metrics and the log are
-- left out: nothing reads them.
pub mod Laws
use zaas.Prelude.{ℕ, ◌-◌, ◌/◌, ◌<◌, String, Bool, Option, none, some, ltb, if◌then◌else◌}
use zaas.Prelude.Int.{ℤ, pos}
use zaas.Prelude.Text.{◌^^◌, show}
use zaas.Http.{
  Request, Response, Handler, Middleware, Problem, problem, set_header, write_header, encode,
}
use zaas.RateLimiter.{Result, Answer, answered, failed, RateLimiter}
use zaas.Middleware.ClientIp.{extract_ip}

-- Whom the request is counted for: its key at the limiter, and the limit that the headers name.
abbrev pub consult : {S : Type 0} → RateLimiter S → ℤ → Request → S → ℤ × (Answer × S)
consult rl rpm r s = elim r.client [
  | some client ↦
      (client.rate_limit_rpm, rl.allow_n ("client:" ^^ client.id) client.rate_limit_rpm r.clock s)
  | none ↦ (rpm, rl.allow (extract_ip r) r.clock s)
]

abbrev pub unavailable : Request → Response → Response
unavailable r w =
    encode
      (problem (record {
        type_url = "https://zaas.at/errors/service-unavailable";
        title = "Service Unavailable";
        status = 503;
        detail = "Rate limiter temporarily unavailable. Please retry shortly.";
        instance_path = r.path;
        code = "SERVICE_UNAVAILABLE";
        request_id = r.request_id;
        retry_after = some (pos 5);
      }))
      (write_header 503
        (set_header "Content-Type" "application/problem+json" (set_header "Retry-After" "5" w)))

-- `int(time.Until(t).Seconds())`, at least 1.
abbrev pub retry_seconds : ℕ → ℕ → ℕ
retry_seconds now reset_at =
    let seconds = (reset_at - now) / 1_000_000_000 in if ltb seconds 1 then 1 else seconds

abbrev pub too_many : ℤ → ℕ → Request → Response → Response
too_many limit retry_after r w =
    encode
      (problem (record {
        type_url = "https://zaas.at/errors/rate-limited";
        title = "Too Many Requests";
        status = 429;
        detail =
            "Rate limit exceeded ("
            ^^ show limit
            ^^ " req/min). Email contact@zaas.at to request a free API key for higher limits.";
        instance_path = r.path;
        code = "RATE_LIMITED";
        request_id = r.request_id;
        retry_after = some (pos retry_after);
      }))
      (write_header 429 (
        set_header "Content-Type" "application/problem+json"
          (set_header "Retry-After" (show (pos retry_after)) w)))

-- The headers that every decided request gets.
abbrev pub limit_headers : ℤ → Result → Response → Response
limit_headers limit result w =
    set_header "X-RateLimit-Reset" (show (pos (result.reset_at / 1_000_000_000))) (
      set_header "X-RateLimit-Remaining" (show result.remaining)
        (set_header "X-RateLimit-Limit" (show limit) w))

abbrev pub decided :
    {S : Type 0} → Bool → Handler S → Request → Response → ℤ × (Answer × S) → Response × S
decided fail_closed next r w (limit, (failed, s)) =
    if fail_closed then (unavailable r w, s) else next r w s
decided fail_closed next r w (limit, (answered result, s)) =
    let w' = limit_headers limit result w in
    if result.allowed
    then next r w' s
    else (too_many limit (retry_seconds r.clock result.reset_at) r w', s)

unfoldable pub rate_limit : {S : Type 0} → RateLimiter S → ℤ → Bool → Middleware S
rate_limit rl rpm fail_closed next r w s = decided fail_closed next r w (consult rl rpm r s)
