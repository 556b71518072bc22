-- ===== src/Router.antt =====
-- api/internal/handler/router.go: `NewRouter`. The router of chi is an interface: the middleware of
-- `Use`, and the routes with the middleware of their groups. The telemetry around the router is left
-- out. What is below /api/v1 and has no route is left to chi.
pub mod Dispatch
pub mod Gates
pub mod Public
pub mod AuthSteps
pub mod AuthBound
pub mod Query
pub mod Endpoint
pub mod World
mod Tests
use zaas.Prelude.{
  String, Bool, false, true, List, [], ◌∷◌, ◌++◌, Option, none, some, ◌&&◌, map, str_eq,
  if◌then◌else◌,
}
use zaas.Prelude.Int.{ℤ, pos}
use zaas.Prelude.Lens.{Lens}
use zaas.Http.{Request, Response, Handler, Middleware}
use zaas.Config.{Config}
use zaas.OpenApi.{ServerInterface, ParamError, error_text, ServerInterfaceWrapper}
use zaas.OpenApi.Wrapper.{QueryBinder}
use zaas.OpenApi.Wrapper
use zaas.RateLimiter.{answered, RateLimiter}
use zaas.RateLimiter.Memory.{MemoryRateLimiter, allow, allow_n}
use zaas.Store.{ClientStore}
use zaas.Middleware.Admin.{admin_auth}
use zaas.Middleware.Auth.{auth}
use zaas.Middleware.RateLimit.{rate_limit}
use zaas.Middleware.Cors.{cors}
use zaas.Middleware.Logger.{LogEntry, logger}
use zaas.Handlers.Respond.{write_error}
use zaas.Handlers.Health.{healthz, readyz, metrics_handler}

-- A route, with the middleware of the groups around it, the outermost first.
pub record Route (S : Type 0) : Type 0 where
  pub method : String
  pub path : String
  pub middlewares : List (Middleware S)
  pub handler : Handler S

-- What the code uses of chi.
pub record Chi (S : Type 0) : Type 0 where
  pub request_id : Middleware S
  pub client_ip_from_header : String → Middleware S
  pub serve : List (Middleware S) → List (Route S) → Handler S

abbrev pub get : {S : Type 0} → String → List (Middleware S) → Handler S → Route S
get path ms h = record { method = "GET"; path = path; middlewares = ms; handler = h }

abbrev pub post : {S : Type 0} → String → List (Middleware S) → Handler S → Route S
post path ms h = record { method = "POST"; path = path; middlewares = ms; handler = h }

-- An in-memory limiter that is a part of the world.
abbrev pub memory_limiter : {S : Type 0} → Lens S MemoryRateLimiter → RateLimiter S
memory_limiter part = record {
  allow = λ key now s.
      let (result, rl) = allow key now (part.get s) in (answered result, part.put rl s);
  allow_n = λ key rpm now s.
      let (result, rl) = allow_n key rpm now (part.get s) in (answered result, part.put rl s);
}

-- `WriteError(w, r, http.StatusBadRequest, "INVALID_PARAM", err.Error(), 0)`
abbrev pub param_error : {S : Type 0} → ParamError → Handler S
param_error e r w s = (write_error w r 400 "INVALID_PARAM" (error_text e) (pos 0), s)

abbrev pub wrapper_of : {S : Type 0} → ServerInterface S → ServerInterfaceWrapper S
wrapper_of srv = record {
  handler = srv;
  handler_middlewares = [];
  error_handler_func = param_error;
}

-- The arguments of `NewRouter`, the log and the libraries that its parts use. `auth_rl` is the part
-- of the world of the limiter that `NewRouter` makes for the auth endpoints.
pub record Deps (S : Type 0) : Type 0 where
  pub cfg : Config
  pub rl : RateLimiter S
  pub prometheus : Option (Handler S)
  pub srv : ServerInterface S
  pub client_store : Option (ClientStore S)
  pub auth_rl : Lens S MemoryRateLimiter
  pub binder : QueryBinder
  pub sha256_hex : String → String
  pub log : LogEntry → S → S

module _ {S : Type 0} (chi : Chi S) (deps : Deps S) where
  -- `r.Use`
  abbrev pub top_middlewares : List (Middleware S)
  top_middlewares =
      chi.request_id
      ∷ chi.client_ip_from_header "X-Real-Ip"
      ∷ logger deps.log
      ∷ cors deps.cfg.cors_origins
      ∷ []

  abbrev pub wrapper : ServerInterfaceWrapper S
  wrapper = wrapper_of deps.srv

  abbrev pub auth_middlewares : List (Middleware S)
  auth_middlewares = rate_limit (memory_limiter deps.auth_rl) (pos 5) true ∷ []

  abbrev pub admin_middlewares : List (Middleware S)
  admin_middlewares =
      rate_limit (memory_limiter deps.auth_rl) (pos 5) true ∷ admin_auth deps.cfg.admin_token ∷ []

  abbrev pub api_middlewares : List (Middleware S)
  api_middlewares =
      auth deps.sha256_hex deps.client_store ∷ rate_limit deps.rl deps.cfg.rate_limit_rpm false ∷ []

  -- The routes of the main API.
  abbrev pub randomness : List (String × Handler S)
  randomness =
      ("/api/v1/coin", Wrapper.flip_coin wrapper)
      ∷ ("/api/v1/color", Wrapper.generate_color wrapper deps.binder)
      ∷ ("/api/v1/coordinates", Wrapper.generate_coordinates wrapper deps.binder)
      ∷ ("/api/v1/dice", Wrapper.roll_dice wrapper deps.binder)
      ∷ ("/api/v1/lorem", Wrapper.generate_lorem wrapper deps.binder)
      ∷ ("/api/v1/number", Wrapper.generate_number wrapper deps.binder)
      ∷ ("/api/v1/openapi.yaml", Wrapper.get_openapi_spec wrapper)
      ∷ ("/api/v1/password", Wrapper.generate_password wrapper deps.binder)
      ∷ ("/api/v1/ssh-key", Wrapper.generate_ssh_key wrapper deps.binder)
      ∷ ("/api/v1/uuid", Wrapper.generate_uuid wrapper deps.binder)
      ∷ ("/api/v1/words", Wrapper.generate_words wrapper deps.binder)
      ∷ []

  abbrev pub api_route : String × Handler S → Route S
  api_route (path, h) = get path api_middlewares h

  abbrev pub metrics_routes : List (Route S)
  metrics_routes =
      if deps.cfg.metrics_endpoint_enabled
      then get "/metrics" [] (metrics_handler deps.prometheus) ∷ []
      else []

  abbrev pub auth_routes : List (Route S)
  auth_routes =
      post "/api/v1/auth/verify" auth_middlewares (Wrapper.auth_verify wrapper)
      ∷ post "/api/v1/auth/register" admin_middlewares deps.srv.auth_register
      ∷ post "/api/v1/auth/reissue" admin_middlewares deps.srv.auth_reissue
      ∷ []

  abbrev pub plain_routes : List (Route S)
  plain_routes = get "/healthz" [] healthz ∷ get "/readyz" [] readyz ∷ metrics_routes

  abbrev pub routes : List (Route S)
  routes = plain_routes ++ (auth_routes ++ map api_route randomness)

  -- `NewRouter`
  unfoldable pub new_router : Handler S
  new_router = chi.serve top_middlewares routes
