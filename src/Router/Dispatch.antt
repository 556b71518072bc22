-- ===== src/Router/Dispatch.antt =====
-- Where a request goes in the router of api/internal/handler/router.go.
use zaas.Prelude.{
  ◌≡◌, ◌≢◌, ◌⊎◌, refl, sym, ◌∙◌, String, Bool, true, false, ◌&&◌, List, [], ◌∷◌, ◌++◌, Option, none,
  some, map, map_get, All, str_eq, str_eq_iff, Bool-cases, inl, inr, arith, if◌then◌else◌,
}
use zaas.Http.{Request, Response, Handler, Middleware, header, write_header}
use zaas.Middleware.Cors.{cors, cors_headers}
use zaas.Middleware.Logger.{LogEntry, logger, log_entry}
use zaas.Handlers.Health.{metrics_handler}
use zaas.Router.{
  Route, Chi, Deps, get, routes, randomness, api_route, plain_routes, auth_routes, top_middlewares,
  new_router,
}

-- The handler inside the middleware, the first outermost.
abbrev pub compose : {S : Type 0} → List (Middleware S) → Handler S → Handler S
compose [] h = h
compose (m ∷ ms) h = m (compose ms h)

-- The first route of the method and the path.
abbrev pub find_route : {S : Type 0} → String → String → List (Route S) → Option (Route S)
find_route method path [] = none
find_route method path (route ∷ rest) =
    if str_eq route.method method && str_eq route.path path
    then some route
    else find_route method path rest

-- What the code relies on of chi: the middleware of `Use` runs around the router, in order; a
-- request that has a route gets to it, inside the middleware of its groups; `RequestID` sets the id
-- and no more, and nothing here reads what `ClientIPFromHeader` sets.
pub record ChiLaws {S : Type 0} (chi : Chi S) : Type 0 where
  pub mux : List (Route S) → Handler S
  pub id_of : Request → String
  pub serve_lem :
      (ms : List (Middleware S)) (rs : List (Route S)) (r : Request) (w : Response) (s : S)
      → chi.serve ms rs r w s ≡ compose ms (mux rs) r w s
  pub mux_found :
      (rs : List (Route S)) (route : Route S) (r : Request) (w : Response) (s : S)
      → find_route r.method r.path rs ≡ some route
      → mux rs r w s ≡ compose route.middlewares route.handler r w s
  pub request_id_lem :
      (next : Handler S) (r : Request) (w : Response) (s : S)
      → chi.request_id next r w s ≡ next (record r { request_id = id_of r }) w s
  pub client_ip_lem :
      (name : String) (next : Handler S) (r : Request) (w : Response) (s : S)
      → chi.client_ip_from_header name next r w s ≡ next r w s

pub ne_options :
    (method known : String) → method ≡ known → str_eq known "OPTIONS" ≡ false → method ≢ "OPTIONS"
ne_options method known same other e =
    let q : str_eq known "OPTIONS" ≡ true = (str_eq_iff known "OPTIONS").1 (sym same ∙ e) in cc

module _ {S : Type 0} where
  find_route-append :
      (method path : String) (xs ys : List (Route S))
      → All (λ route. str_eq route.path path ≡ false) xs
      → find_route method path (xs ++ ys) ≡ find_route method path ys
  find_route-append method path [] ys h = refl
  find_route-append method path (x ∷ xs) ys h =
      ground (arith, h.0, find_route-append method path xs ys h.1)

  logger-next :
      (log : LogEntry → S → S) (next next' : Handler S) (r : Request) (w : Response) (s : S)
      → next r w s ≡ next' r w s
      → logger log next r w s ≡ logger log next' r w s
  unfolding logger
  logger-next log next next' r w s e = rw e refl

  -- A request that is not one for the health of the server is logged.
  pub logger-logs :
      (log : LogEntry → S → S) (next : Handler S) (r : Request) (w : Response) (s : S)
      → str_eq "/healthz" r.path ≡ false
      → str_eq "/readyz" r.path ≡ false
      → logger log next r w s ≡ ((next r w s).0, log (log_entry r (next r w s).0) (next r w s).1)
  unfolding logger
  logger-logs log next r w s h k = ground (
    arith,
    str_eq_iff "/healthz" r.path,
    str_eq_iff r.path "/healthz",
    str_eq_iff "/readyz" r.path,
    str_eq_iff r.path "/readyz",
  )

  pub logger-skips :
      (log : LogEntry → S → S) (next : Handler S) (r : Request) (w : Response) (s : S)
      → (r.path ≡ "/healthz") ⊎ (r.path ≡ "/readyz")
      → logger log next r w s ≡ next r w s
  unfolding logger
  logger-skips log next r w s (inl e) = ground (arith, str_eq_iff r.path "/healthz")
  logger-skips log next r w s (inr e) = ground (arith, str_eq_iff r.path "/readyz")

  cors-next :
      (origins : String) (next : Handler S) (r : Request) (w : Response) (s : S)
      → r.method ≢ "OPTIONS"
      → cors origins next r w s ≡ next r (cors_headers origins (header "Origin" r) w) s
  unfolding cors
  cors-next origins next r w s h = ground (arith, h, str_eq_iff r.method "OPTIONS")

module _ {S : Type 0} (chi : Chi S) (deps : Deps S) where
  -- A path of none of these is another.
  pub api_path-ne :
      (p path : String) (h : Handler S)
      → map_get (randomness chi deps) p ≡ none
      → map_get (randomness chi deps) path ≡ some h
      → str_eq p path ≡ false
  api_path-ne p path h missing e = elim (Bool-cases (str_eq p path)) [
    | inr ne ↦ ne
    | inl eq ↦ let same : p ≡ path = (str_eq_iff p path).0 eq in cc
  ]

  find_route-map :
      (path : String) (h : Handler S) (table : List (String × Handler S))
      → map_get table path ≡ some h
      → find_route "GET" path (map (api_route chi deps) table) ≡ some (api_route chi deps (path, h))
  find_route-map path h [] e = cc
  find_route-map path h ((p, k) ∷ table) e = elim (Bool-cases (str_eq p path)) [
    | inl eq ↦
        let same : p ≡ path = (str_eq_iff p path).0 eq in
        let here : ◌≡◌ {A = Option (Handler S)} (some k) (some h) = rw eq at e in rw eq cc
    | inr ne ↦ rw ne (find_route-map path h table (rw ne at e))
  ]

  -- A path that is none of the first routes'.
  pub past_plain :
      (method path : String)
      → str_eq "/healthz" path ≡ false
      → str_eq "/readyz" path ≡ false
      → str_eq "/metrics" path ≡ false
      → find_route method path (routes chi deps)
        ≡ find_route method path
            (auth_routes chi deps ++ map (api_route chi deps) (randomness chi deps))
  past_plain method path healthz_ne readyz_ne metrics_ne =
      find_route-append method path (plain_routes chi deps)
        (auth_routes chi deps ++ map (api_route chi deps) (randomness chi deps))
        (healthz_ne, (readyz_ne, no_metrics deps.cfg.metrics_endpoint_enabled))
    where
      no_metrics :
          (b : Bool)
          → All
              (λ (route : Route S). str_eq route.path path ≡ false)
              (if b then get "/metrics" [] (metrics_handler deps.prometheus) ∷ [] else [])
      no_metrics true = (metrics_ne, tt)
      no_metrics false = tt

  pub find_route-randomness :
      (path : String) (h : Handler S)
      → map_get (randomness chi deps) path ≡ some h
      → find_route "GET" path (routes chi deps) ≡ some (api_route chi deps (path, h))
  find_route-randomness path h e =
      past_plain "GET" path (api_path-ne "/healthz" path h refl e)
        (api_path-ne "/readyz" path h refl e) (api_path-ne "/metrics" path h refl e)
      ∙ find_route-append "GET" path (auth_routes chi deps)
          (map (api_route chi deps) (randomness chi deps))
          (
            api_path-ne "/api/v1/auth/verify" path h refl e,
            (
              api_path-ne "/api/v1/auth/register" path h refl e,
              (api_path-ne "/api/v1/auth/reissue" path h refl e, tt),
            ),
          )
      ∙ find_route-map path h (randomness chi deps) e

module _ {S : Type 0} (chi : Chi S) (deps : Deps S) (laws : ChiLaws chi) where
  -- The request as the middleware of the code sees it.
  abbrev pub with_id : Request → Request
  with_id r = record r { request_id = laws.id_of r }

  -- A request that is no preflight and has a route goes through the log and the CORS headers to the
  -- route.
  pub new_router_at :
      (route : Route S) (r : Request) (w : Response) (s : S)
      → r.method ≢ "OPTIONS"
      → find_route r.method r.path (routes chi deps) ≡ some route
      → new_router chi deps r w s
        ≡ logger deps.log
            (λ r' w' s'.
              compose route.middlewares route.handler r'
                (cors_headers deps.cfg.cors_origins (header "Origin" r') w')
                s')
            (with_id r)
            w
            s
  unfolding new_router
  new_router_at route r w s h found =
      laws.serve_lem (top_middlewares chi deps) (routes chi deps) r w s
      ∙ laws.request_id_lem _ r w s
      ∙ laws.client_ip_lem "X-Real-Ip" _ (with_id r) w s
      ∙ logger-next deps.log _ _ (with_id r) w s (
          cors-next deps.cfg.cors_origins _ (with_id r) w s h
          ∙ laws.mux_found (routes chi deps) route (with_id r) _ s found)

  -- A preflight is answered before the routes are looked at.
  pub new_router_preflight :
      (r : Request) (w : Response) (s : S)
      → r.method ≡ "OPTIONS"
      → new_router chi deps r w s
        ≡ logger deps.log
            (λ r' w' s'.
              (write_header 204 (cors_headers deps.cfg.cors_origins (header "Origin" r') w'), s'))
            (with_id r)
            w
            s
  unfolding new_router cors
  new_router_preflight r w s h =
      laws.serve_lem (top_middlewares chi deps) (routes chi deps) r w s
      ∙ laws.request_id_lem _ r w s
      ∙ laws.client_ip_lem "X-Real-Ip" _ (with_id r) w s
      ∙ logger-next deps.log _ _ (with_id r) w s (rw h refl)
