-- ===== src/Router/AuthSteps.antt =====
-- One request to an auth endpoint of api/internal/handler/router.go: what it does to the limiter of
-- these endpoints, and how a refusal is answered.
use zaas.Prelude.{
  ℕ, ◌≡◌, ◌⊎◌, inl, inr, refl, sym, subst, ap, ◌∙◌, String, true, false, List, some, none, str_eq,
  Bool-cases, arith,
}
use zaas.Prelude.Int.{ℤ, pos}
use zaas.Http.{Request, Response, Handler, Middleware, header, blank}
use zaas.RateLimiter.{Result, Answer, answered, RateLimiter}
use zaas.RateLimiter.Memory.{MemoryRateLimiter, allow, allow_n}
use zaas.Middleware.Admin.{admin_auth}
use zaas.Middleware.ClientIp.{extract_ip}
use zaas.Middleware.RateLimit.{consult, decided, rate_limit}
use zaas.Middleware.Cors.{cors_headers}
use zaas.Middleware.Cors.Laws.{cors_headers-status}
use zaas.Middleware.Logger.{LogEntry, log_entry}
use zaas.OpenApi.Wrapper
use zaas.Router.{Chi, Deps, post, routes, wrapper, memory_limiter, new_router}
use zaas.Router.Dispatch.{
  compose, find_route, ChiLaws, with_id, new_router_at, past_plain, logger-logs, ne_options,
}

-- A POST of one of the three paths, as it comes from the network.
pub record IsAuthRequest (r : Request) : Type 0 where
  pub posted : r.method ≡ "POST"
  pub at_path :
      (r.path ≡ "/api/v1/auth/verify")
      ⊎ ((r.path ≡ "/api/v1/auth/register") ⊎ (r.path ≡ "/api/v1/auth/reissue"))
  pub fresh : r.client ≡ none

module _ {S : Type 0} (chi : Chi S) (deps : Deps S) where
  -- Nothing but the limiter's own calls changes it.
  pub record Leaves : Type 0 where
    pub log : (e : LogEntry) (s : S) → deps.auth_rl.get (deps.log e s) ≡ deps.auth_rl.get s
    pub verify :
        (r : Request) (w : Response) (s : S)
        → deps.auth_rl.get (deps.srv.auth_verify r w s).1 ≡ deps.auth_rl.get s
    pub register :
        (r : Request) (w : Response) (s : S)
        → deps.auth_rl.get (deps.srv.auth_register r w s).1 ≡ deps.auth_rl.get s
    pub reissue :
        (r : Request) (w : Response) (s : S)
        → deps.auth_rl.get (deps.srv.auth_reissue r w s).1 ≡ deps.auth_rl.get s

allow_lem :
    (key : String) (now : ℕ) (rl : MemoryRateLimiter) → allow key now rl ≡ allow_n key rl.rpm now rl
unfolding allow
allow_lem key now rl = refl

consult-none :
    {S : Type 0} (rl : RateLimiter S) (rpm : ℤ) (r : Request) (s : S)
    → r.client ≡ none
    → consult rl rpm r s ≡ (rpm, rl.allow (extract_ip r) r.clock s)
consult-none rl rpm r s fresh = ground (arith, fresh)

module _ {S : Type 0} (chi : Chi S) (deps : Deps S) (laws : ChiLaws chi)
    (leaves : Leaves chi deps) where
  -- What a request does to the limiter, and that a refusal is answered 429.
  pub record Steps (r : Request) (s : S) (out : Response × S) : Type 0 where
    pub kept :
        deps.auth_rl.get out.1 ≡ (allow_n (extract_ip r) (pos 5) r.clock (deps.auth_rl.get s)).1
    pub denied :
        (allow_n (extract_ip r) (pos 5) r.clock (deps.auth_rl.get s)).0.allowed ≡ false
        → out.0.status ≡ some 429

  consult-auth :
      (r : Request) (s : S)
      → r.client ≡ none
      → (deps.auth_rl.get s).rpm ≡ pos 5
      → let step = allow_n (extract_ip r) (pos 5) r.clock (deps.auth_rl.get s) in
        consult (memory_limiter deps.auth_rl) (pos 5) r s
        ≡ (pos 5, (answered step.0, deps.auth_rl.put step.1 s))
  consult-auth r s fresh five =
      consult-none (memory_limiter deps.auth_rl) (pos 5) r s fresh
      ∙ ap
          (λ (step : Result × MemoryRateLimiter).
            let out : ℤ × (Answer × S) = (pos 5, (answered step.0, deps.auth_rl.put step.1 s)) in
            out)
          (allow_lem (extract_ip r) r.clock (deps.auth_rl.get s)
            ∙ ap (λ rpm. allow_n (extract_ip r) rpm r.clock (deps.auth_rl.get s)) five)

  decided-Steps :
      (next : Handler S) (r : Request) (w : Response) (s : S) (step : Result × MemoryRateLimiter)
      → ((r : Request) (w : Response) (s : S)
          → deps.auth_rl.get (next r w s).1 ≡ deps.auth_rl.get s)
      → w.status ≡ none
      → step ≡ allow_n (extract_ip r) (pos 5) r.clock (deps.auth_rl.get s)
      → Steps r s (decided true next r w (pos 5, (answered step.0, deps.auth_rl.put step.1 s)))
  decided-Steps next r w s step same unset e = elim (Bool-cases step.0.allowed) [
    | inl a ↦ rw a (record {
      kept = same r _ _ ∙ deps.auth_rl.get-put step.1 s ∙ ap (λ q. q.1) e;
      denied = λ no. cc (a, no, ap (λ q. q.0.allowed) e);
    })
    | inr a ↦ rw a (record {
      kept = deps.auth_rl.get-put step.1 s ∙ ap (λ q. q.1) e;
      denied = λ _. rw unset refl;
    })
  ]

  gate-Steps :
      (next : Handler S) (r : Request) (w : Response) (s : S)
      → ((r : Request) (w : Response) (s : S)
          → deps.auth_rl.get (next r w s).1 ≡ deps.auth_rl.get s)
      → r.client ≡ none
      → w.status ≡ none
      → (deps.auth_rl.get s).rpm ≡ pos 5
      → Steps r s (rate_limit (memory_limiter deps.auth_rl) (pos 5) true next r w s)
  unfolding rate_limit
  gate-Steps next r w s same fresh unset five =
      subst (λ consulted. Steps r s (decided true next r w consulted))
        (sym (consult-auth r s fresh five)) (decided-Steps next r w s _ same unset refl)

  step_route :
      (path : String) (ms : List (Middleware S)) (h next : Handler S) (r : Request) (s : S)
      → r.method ≡ "POST"
      → r.path ≡ path
      → find_route "POST" path (routes chi deps) ≡ some (post path ms h)
      → str_eq "/healthz" path ≡ false
      → str_eq "/readyz" path ≡ false
      → compose ms h ≡ rate_limit (memory_limiter deps.auth_rl) (pos 5) true next
      → ((r : Request) (w : Response) (s : S)
          → deps.auth_rl.get (next r w s).1 ≡ deps.auth_rl.get s)
      → r.client ≡ none
      → (deps.auth_rl.get s).rpm ≡ pos 5
      → Steps r s (new_router chi deps r blank s)
  unfolding extract_ip
  step_route path ms h next r s posted at_path found not_healthz not_readyz gated same fresh five =
      let r₁ = with_id chi deps laws r in
      let w = cors_headers deps.cfg.cors_origins (header "Origin" r₁) blank in
      let inner = rate_limit (memory_limiter deps.auth_rl) (pos 5) true next r₁ w s in
      let steps : Steps r₁ s inner =
        gate-Steps next r₁ w s same fresh (cors_headers-status _ _ blank) five in
      subst (Steps r s)
        (sym (
          new_router_at chi deps laws (post path ms h) r blank s
            (ne_options r.method "POST" posted refl)
            (ap (λ m. find_route m r.path (routes chi deps)) posted
              ∙ ap (λ p. find_route "POST" p (routes chi deps)) at_path
              ∙ found)
          ∙ logger-logs deps.log _ r₁ blank s (ap (str_eq "/healthz") at_path ∙ not_healthz)
              (ap (str_eq "/readyz") at_path ∙ not_readyz)
          ∙ ap
              (λ (k : Handler S).
                let out = k r₁ w s in (out.0, deps.log (log_entry r₁ out.0) out.1))
              gated))
        (record {
          kept = leaves.log (log_entry r₁ inner.0) inner.1 ∙ steps.kept;
          denied = steps.denied;
        })

  admin_auth-leaves :
      (h : Handler S)
      → ((r : Request) (w : Response) (s : S) → deps.auth_rl.get (h r w s).1 ≡ deps.auth_rl.get s)
      → (r : Request) (w : Response) (s : S)
      → deps.auth_rl.get (admin_auth deps.cfg.admin_token h r w s).1 ≡ deps.auth_rl.get s
  unfolding admin_auth
  admin_auth-leaves h same r w s = ground (arith, same r w s)

  pub router-Steps :
      (r : Request) (s : S)
      → IsAuthRequest r
      → (deps.auth_rl.get s).rpm ≡ pos 5
      → Steps r s (new_router chi deps r blank s)
  unfolding Wrapper.auth_verify
  router-Steps r s a five = elim a.at_path [
    | inl e ↦
        step_route "/api/v1/auth/verify" _ (Wrapper.auth_verify (wrapper chi deps)) _ r s a.posted e
          (past_plain chi deps "POST" "/api/v1/auth/verify" refl refl refl) refl refl refl
          leaves.verify a.fresh five
    | inr (inl e) ↦
        step_route "/api/v1/auth/register" _ deps.srv.auth_register _ r s a.posted e
          (past_plain chi deps "POST" "/api/v1/auth/register" refl refl refl) refl refl refl
          (admin_auth-leaves _ leaves.register) a.fresh five
    | inr (inr e) ↦
        step_route "/api/v1/auth/reissue" _ deps.srv.auth_reissue _ r s a.posted e
          (past_plain chi deps "POST" "/api/v1/auth/reissue" refl refl refl) refl refl refl
          (admin_auth-leaves _ leaves.reissue) a.fresh five
  ]
