-- ===== src/Middleware/RateLimit/Laws.antt =====
-- What the middleware does with each answer of the limiter.
use zaas.Prelude.{
  ℕ, ◌+◌, ◌-◌, ◌*◌, ◌≤◌, ◌<◌, ◌≡◌, refl, Bool, true, false, some, arith, if◌then◌else◌,
}
use zaas.Prelude.Int.{ℤ, pos}
use zaas.Prelude.Text.{show}
use zaas.Http.{Request, Response, Handler, blank}
use zaas.RateLimiter.{Result, answered, failed, RateLimiter}
use zaas.Middleware.RateLimit.{consult, unavailable, retry_seconds, limit_headers, rate_limit}

module _ {S : Type 0} (rl : RateLimiter S) (rpm : ℤ) (fail_closed : Bool) (next : Handler S) where
  -- A request that the limiter allows goes to the next handler, which finds the three headers of
  -- the limit set; the state is the one that the limiter left.
  pub rate_limit_passes :
      (r : Request) (w : Response) (s s' : S) (limit : ℤ) (result : Result)
      → consult rl rpm r s ≡ (limit, (answered result, s'))
      → result.allowed ≡ true
      → rate_limit rl rpm fail_closed next r w s ≡ next r (limit_headers limit result w) s'
  unfolding rate_limit
  rate_limit_passes r w s s' limit result asked yes_it_is = rw (asked, yes_it_is) refl

  -- A request that the limiter refuses is answered 429, and the next handler does not run. The
  -- header `Retry-After` is a positive number of seconds: one, or the whole seconds that are left
  -- until the limiter resets.
  pub rate_limit_refuses :
      (r : Request) (s s' : S) (limit : ℤ) (result : Result)
      → consult rl rpm r s ≡ (limit, (answered result, s'))
      → result.allowed ≡ false
      → let (w, s'') = rate_limit rl rpm fail_closed next r blank s in
        (w.status ≡ some 429)
        × (s'' ≡ s')
        × ((n : ℕ) × (w.headers "Retry-After" ≡ some (show (pos n)))
            × (1 ≤ n)
            × (n * 1_000_000_000 ≤ (result.reset_at - r.clock) + 1_000_000_000)
            × (result.reset_at - r.clock < (n + 1) * 1_000_000_000))
  unfolding rate_limit
  rate_limit_refuses r s s' limit result asked refused =
      rw (asked, refused)
        (
          refl,
          refl,
          (retry_seconds r.clock result.reset_at, refl, ground arith, ground arith, ground arith),
        )

  -- An error of the limiter: 503 where it is to fail closed, and the next handler does not run;
  -- otherwise the request passes as if there were no limit.
  pub rate_limit_fails :
      (r : Request) (w : Response) (s s' : S) (limit : ℤ)
      → consult rl rpm r s ≡ (limit, (failed, s'))
      → rate_limit rl rpm fail_closed next r w s
        ≡ (if fail_closed then (unavailable r w, s') else next r w s')
  unfolding rate_limit
  rate_limit_fails r w s s' limit asked = rw asked refl
