-- ===== src/Router/Public.antt =====
-- The requests of api/internal/handler/router.go that need no API key: preflights, the health of the
-- server, and the endpoints of the operator.
use zaas.Prelude.{
  ◌≡◌, ◌≢◌, ◌⊎◌, inl, inr, refl, sym, subst, if◌then◌else◌, ap, ◌∙◌, String, true, false, [],
  Option, some, none, ◌||◌, str_eq, Bool-cases,
}
use zaas.Prelude.Int.{ℤ, pos}
use zaas.Http.{Request, Response, Handler, ClientInfo, header, write_header, blank}
use zaas.RateLimiter.{Result, answered}
use zaas.RateLimiter.Memory.{MemoryRateLimiter}
use zaas.Middleware.Admin.{admin_auth, admin_auth-closed}
use zaas.Middleware.Problem.{write_problem}
use zaas.Middleware.RateLimit.{consult, decided, rate_limit}
use zaas.Middleware.Cors.{cors_headers}
use zaas.Middleware.Cors.Laws.{cors_headers-status}
use zaas.Middleware.Logger.{log_entry, logger}
use zaas.Handlers.Health.{health_body, healthz, readyz}
use zaas.Router.{Chi, Deps, get, post, routes, admin_middlewares, memory_limiter, new_router}
use zaas.Router.Dispatch.{
  compose, find_route, ChiLaws, with_id, new_router_at, new_router_preflight, past_plain,
  logger-logs, logger-skips, ne_options,
}

module _ {S : Type 0} (chi : Chi S) (deps : Deps S) (laws : ChiLaws chi) where
  abbrev with_cors : Request → Response → Response
  with_cors r w = cors_headers deps.cfg.cors_origins (header "Origin" r) w

  -- A preflight of any path is answered 204 with the CORS headers, without a key, a limiter or a
  -- handler; the world is as before but for the log.
  preflight_answer :
      (r : Request) (w : Response) (s : S)
      → r.method ≡ "OPTIONS"
      → let out = new_router chi deps r w s in
        (out.0 ≡ write_header 204 (with_cors r w))
        × ((out.1 ≡ s) ⊎ (out.1 ≡ deps.log (log_entry (with_id chi deps laws r) out.0) s))
  unfolding logger
  preflight_answer r w s h =
      subst
        (λ out.
          (out.0 ≡ write_header 204 (with_cors r w))
          × ((out.1 ≡ s) ⊎ (out.1 ≡ deps.log (log_entry (with_id chi deps laws r) out.0) s)))
        (sym (new_router_preflight chi deps laws r w s h))
        (elim (Bool-cases (str_eq r.path "/healthz" || str_eq r.path "/readyz")) [
          | inl e ↦ rw e (refl, inl refl)
          | inr e ↦ rw e (refl, inr refl)
        ])

  abbrev pub status_of : String → String
  status_of path = if str_eq path "/healthz" then "ok" else "ready"

  health_route :
      (path : String) (h : Handler S) (r : Request) (w : Response) (s : S)
      → r.method ≡ "GET"
      → r.path ≡ path
      → (path ≡ "/healthz") ⊎ (path ≡ "/readyz")
      → find_route "GET" path (routes chi deps) ≡ some (get path [] h)
      → new_router chi deps r w s ≡ h (with_id chi deps laws r) (with_cors r w) s
  health_route path h r w s get_method at_path health found =
      new_router_at chi deps laws (get path [] h) r w s (ne_options r.method "GET" get_method refl)
        (ap (λ m. find_route m r.path (routes chi deps)) get_method
          ∙ ap (λ p. find_route "GET" p (routes chi deps)) at_path
          ∙ found)
      ∙ logger-skips deps.log _ (with_id chi deps laws r) w s
          (elim health [ inl e ↦ inl (at_path ∙ e) | inr e ↦ inr (at_path ∙ e) ])

  -- A GET of /healthz or /readyz is answered 200 with the status, and changes nothing, the log
  -- included, whatever the limiters and the store are.
  pub health_answer :
      (r : Request) (w : Response) (s : S)
      → r.method ≡ "GET"
      → (r.path ≡ "/healthz") ⊎ (r.path ≡ "/readyz")
      → new_router chi deps r w s ≡ (health_body (status_of r.path) (with_cors r w), s)
  unfolding healthz readyz
  health_answer r w s h (inl e) =
      health_route "/healthz" healthz r w s h e (inl refl) refl
      ∙ ap (λ p. (health_body (status_of p) (with_cors r w), s)) (sym e)
  health_answer r w s h (inr e) =
      health_route "/readyz" readyz r w s h e (inr refl) refl
      ∙ ap (λ p. (health_body (status_of p) (with_cors r w), s)) (sym e)

  -- Refused, with no change to the world but of the limiter of the auth endpoints and the log.
  abbrev pub Logged : Request → S → Response × S → Type 0
  Logged r s out =
      ((out.0.status ≡ some 401) ⊎ (out.0.status ≡ some 429))
      × ((rl : MemoryRateLimiter) × (out.1
            ≡ deps.log (log_entry (with_id chi deps laws r) out.0) (deps.auth_rl.put rl s)))

  -- The limiter of the auth endpoints always answers.
  consult_memory :
      (r : Request) (s : S)
      → (limit : ℤ) × (result : Result) × (rl : MemoryRateLimiter) × (consult
            (memory_limiter deps.auth_rl)
            (pos 5)
            r
            s
          ≡ (limit, (answered result, deps.auth_rl.put rl s)))
  consult_memory r s = go r.client
    where
      go :
          (o : Option ClientInfo)
          → (limit : ℤ) × (result : Result) × (rl : MemoryRateLimiter) × (consult
                (memory_limiter deps.auth_rl)
                (pos 5)
                (record r { client = o })
                s
              ≡ (limit, (answered result, deps.auth_rl.put rl s)))
      go none = (_, _, _, refl)
      go (some c) = (_, _, _, refl)

  abbrev Refused : Request → S → Response × S → Type 0
  Refused r s out =
      ((out.0.status ≡ some 401) ⊎ (out.0.status ≡ some 429))
      × ((rl : MemoryRateLimiter) × (out.1 ≡ deps.auth_rl.put rl s))

  module _ (r : Request) (h : Handler S)
      (closed : (deps.cfg.admin_token ≡ "")
        ⊎ (header "X-Admin-Token" r ≢ deps.cfg.admin_token)) where
    decided-Refused :
        (w : Response) (s : S) (limit : ℤ) (result : Result) (rl : MemoryRateLimiter)
        → w.status ≡ none
        → Refused r s (
            decided true
              (admin_auth deps.cfg.admin_token h)
              r
              w
              (limit, (answered result, deps.auth_rl.put rl s)))
    unfolding write_problem
    decided-Refused w s limit result rl fresh = elim (Bool-cases result.allowed) [
      | inl a ↦ rw a (
          subst (Refused r s) (sym (admin_auth-closed deps.cfg.admin_token h r _ _ closed))
            (inl (rw fresh refl), (rl, refl)))
      | inr a ↦ rw a (inr (rw fresh refl), (rl, refl))
    ]

    admin-Refused :
        (w : Response) (s : S)
        → w.status ≡ none
        → Refused r s (compose (admin_middlewares chi deps) h r w s)
    unfolding rate_limit
    admin-Refused w s fresh =
        let (limit, result, rl, e) = consult_memory r s in
        subst
          (λ consulted.
            Refused r s (decided true (admin_auth deps.cfg.admin_token h) r w consulted))
          (sym e) (decided-Refused w s limit result rl fresh)

  admin_route :
      (path : String) (h : Handler S) (r : Request) (s : S)
      → r.method ≡ "POST"
      → r.path ≡ path
      → find_route "POST" path (routes chi deps) ≡ some (post path (admin_middlewares chi deps) h)
      → str_eq "/healthz" path ≡ false
      → str_eq "/readyz" path ≡ false
      → (deps.cfg.admin_token ≡ "") ⊎ (header "X-Admin-Token" r ≢ deps.cfg.admin_token)
      → Logged r s (new_router chi deps r blank s)
  admin_route path h r s post_method at_path found not_healthz not_readyz closed =
      let r₁ = with_id chi deps laws r in
      let w = with_cors r blank in
      let inner = compose (admin_middlewares chi deps) h r₁ w s in
      let refused = admin-Refused r₁ h closed w s (cors_headers-status _ _ blank) in
      subst (Logged r s)
        (sym (
          new_router_at chi deps laws (post path (admin_middlewares chi deps) h) r blank s
            (ne_options r.method "POST" post_method refl)
            (ap (λ m. find_route m r.path (routes chi deps)) post_method
              ∙ ap (λ p. find_route "POST" p (routes chi deps)) at_path
              ∙ found)
          ∙ logger-logs deps.log _ r₁ blank s (ap (str_eq "/healthz") at_path ∙ not_healthz)
              (ap (str_eq "/readyz") at_path ∙ not_readyz)))
        (refused.0, (refused.1.0, ap (deps.log (log_entry r₁ inner.0)) refused.1.1))

  -- A POST that the operator's endpoints get without the configured token in `X-Admin-Token`, or
  -- where none is configured, is answered 401 or 429 and does not reach the handler: the world is as
  -- before but for the limiter of the auth endpoints and the log.
  pub admin_gate :
      (r : Request) (s : S)
      → r.method ≡ "POST"
      → (r.path ≡ "/api/v1/auth/register") ⊎ (r.path ≡ "/api/v1/auth/reissue")
      → (deps.cfg.admin_token ≡ "") ⊎ (header "X-Admin-Token" r ≢ deps.cfg.admin_token)
      → Logged r s (new_router chi deps r blank s)
  admin_gate r s post_method (inl e) closed =
      admin_route "/api/v1/auth/register" deps.srv.auth_register r s post_method e
        (past_plain chi deps "POST" "/api/v1/auth/register" refl refl refl) refl refl closed
  admin_gate r s post_method (inr e) closed =
      admin_route "/api/v1/auth/reissue" deps.srv.auth_reissue r s post_method e
        (past_plain chi deps "POST" "/api/v1/auth/reissue" refl refl refl) refl refl closed
