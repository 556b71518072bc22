-- ===== src/Router/Gates.antt =====
-- What stands before the handlers in the router of api/internal/handler/router.go.
use zaas.Prelude.{◌≡◌, ◌≢◌, String, true, false, some}
use zaas.Prelude.Int.{ℤ}
use zaas.Http.{Request, Response, Handler, header}
use zaas.Store.{Client, ClientStore, ok}
use zaas.RateLimiter.{Result, answered, failed}
use zaas.Middleware.Auth.{with_client, client_info_from_store, reject}
use zaas.Middleware.Auth.Laws.{IsUsable}
use zaas.Middleware.RateLimit.{consult, limit_headers, too_many, retry_seconds, rate_limit}
use zaas.Middleware.Cors.{cors_headers}
use zaas.Middleware.Logger.{log_entry}
use zaas.Router.{Chi, Deps}
use zaas.Router.Dispatch.{ChiLaws}

module _ {S : Type 0} (deps : Deps S) (clients : ClientStore S) where
  -- Who a request comes from after the check of its key: the request and the world that go on.
  pub data Caller (r : Request) (s : S) (r' : Request) (s' : S) : Type 0 where
    nobody : header "Authorization" r ≡ "" → r' ≡ r → s' ≡ s → Caller r s r' s'
    known :
        (c : Client) (key : String)
        → clients.get_client_by_api_key_hash (deps.sha256_hex key) s ≡ (ok (some c), s')
        → IsUsable c
        → r' ≡ with_client r (client_info_from_store c)
        → Caller r s r' s'

  -- What happens to a request of the main API before its handler `h`.
  pub data Gated (h : Handler S) (r : Request) (w : Response) (s : S) (out : Response × S)
      : Type 0 where
    -- A key that is not good: 401, and neither the limiter nor the handler is called.
    unauthorized :
        (s' : S) → header "Authorization" r ≢ "" → out ≡ (reject r w, s') → Gated h r w s out
    -- Denied by the limiter: 429, and the handler is not called.
    limited :
        (r' : Request) (s' s'' : S) (limit : ℤ) (result : Result)
        → Caller r s r' s'
        → consult deps.rl deps.cfg.rate_limit_rpm r' s' ≡ (limit, (answered result, s''))
        → result.allowed ≡ false
        → out ≡ (
          too_many limit (retry_seconds r'.clock result.reset_at) r' (limit_headers limit result w),
          s'',
        )
        → Gated h r w s out
    -- Allowed by the limiter.
    served :
        (r' : Request) (s' s'' : S) (limit : ℤ) (result : Result)
        → Caller r s r' s'
        → consult deps.rl deps.cfg.rate_limit_rpm r' s' ≡ (limit, (answered result, s''))
        → result.allowed ≡ true
        → out ≡ h r' (limit_headers limit result w) s''
        → Gated h r w s out
    -- The limiter failed: the handler is called all the same.
    unlimited :
        (r' : Request) (s' s'' : S) (limit : ℤ)
        → Caller r s r' s'
        → consult deps.rl deps.cfg.rate_limit_rpm r' s' ≡ (limit, (failed, s''))
        → out ≡ h r' w s''
        → Gated h r w s out

  limited_by : Handler S → Handler S
  limited_by h = rate_limit deps.rl deps.cfg.rate_limit_rpm false h

module _ {S : Type 0} (chi : Chi S) (deps : Deps S) (laws : ChiLaws chi) (clients : ClientStore S)
    (with_store : deps.client_store ≡ some clients) where
  -- The answer that the gates and the handler `h` give, inside the log and the CORS headers.
  abbrev pub Answers : Handler S → Request → Response → S → Response × S → Type 0
  Answers h r w s out =
      (inner : Response × S) × Gated deps clients h r
        (cors_headers deps.cfg.cors_origins (header "Origin" r) w) s inner
      × (out ≡ (inner.0, deps.log (log_entry r inner.0) inner.1))
