-- ===== src/Router/Tests.antt =====
-- Concrete requests at the router of api/internal/handler/router.go.
use zaas.Prelude.{
  ◌≡◌, ◌≢◌, ◌≤◌, inl, inr, refl, String, true, List, [], ◌∷◌, ap, ◌⊎◌, length, keep, arith, str_eq,
  str_eq_iff,
}
use zaas.Http.{Response, blank}
use zaas.RateLimiter.{minute}
use zaas.RateLimiter.Memory.{new_memory_rate_limiter}
use zaas.RateLimiter.Spec.{within}
use zaas.Service.Float.Whole.{whole-Rounds}
use zaas.Handlers.Auth.Register.{auth_register}
use zaas.Handlers.Auth.Verify.{auth_verify}
use zaas.Handlers.Auth.Reissue.{auth_reissue}
use zaas.OpenApi.Wrapper
use zaas.Router.{wrapper_of, new_router}
use zaas.Router.Public.{health_answer, Logged, admin_gate}
use zaas.Router.AuthSteps.{IsAuthRequest, Leaves}
use zaas.Router.AuthBound.{Visit, visit, clean, elsewhere, run_router, let_through, auth_bound}
use zaas.Router.Query.{error_of, Read, Reads}
use zaas.Router.Endpoint.{Draws, DiceAnswer, dice_endpoint, PlacesAnswer, coordinates_endpoint}
use zaas.Router.World.{
  World, source_part, started, chi, chi_laws, srv, lib, binder, deps, request_to,
}
use zaas.Handlers.Server.{server}

no_token : ◌≢◌ {A = String} "" "secret"
no_token e = let q : str_eq "" "secret" ≡ true = (str_eq_iff _ _).1 e in cc

admin_gate_example :
    Logged chi deps chi_laws
      (request_to "POST" "/api/v1/auth/reissue" "")
      started
      (new_router chi deps (request_to "POST" "/api/v1/auth/reissue" "") blank started)
admin_gate_example =
    admin_gate chi deps chi_laws (request_to "POST" "/api/v1/auth/reissue" "") started refl
      (inr refl) (inr no_token)

-- The handlers of a server without a store leave the limiter as it is.
deps-Leaves : Leaves chi deps
unfolding auth_register auth_verify auth_reissue
deps-Leaves = record {
  log = λ e s. refl;
  verify = λ r w s. refl;
  register = λ r w s. refl;
  reissue = λ r w s. refl;
}

-- Seven requests, with a clean-up and one to the API in between.
abbrev knocking : List (Visit World)
knocking =
    let r = request_to "POST" "/api/v1/auth/verify" "" in
    visit r
    ∷ visit r
    ∷ visit (request_to "POST" "/api/v1/auth/register" "")
    ∷ clean 100
    ∷ visit r
    ∷ elsewhere (λ s. (new_router chi deps (request_to "GET" "/healthz" "") blank s).1)
    ∷ visit r
    ∷ visit r
    ∷ visit r
    ∷ []

knock :
    (path : String)
    → (path ≡ "/api/v1/auth/verify")
      ⊎ ((path ≡ "/api/v1/auth/register") ⊎ (path ≡ "/api/v1/auth/reissue"))
    → IsAuthRequest (request_to "POST" path "")
knock path at_path = record { posted = refl; at_path = at_path; fresh = refl }

health_kept :
    (s : World)
    → deps.auth_rl.get (new_router chi deps (request_to "GET" "/healthz" "") blank s).1
      ≡ deps.auth_rl.get s
health_kept s =
    ap (λ (out : Response × World). out.1.auth)
      (health_answer chi deps chi_laws (request_to "GET" "/healthz" "") blank s refl (inl refl))

auth_bound_example :
    length (
      keep
        (within minute 50)
        (let_through "192.0.2.1" knocking (run_router chi deps knocking started)))
    ≤ 5
unfolding new_memory_rate_limiter
auth_bound_example =
    auth_bound chi deps chi_laws deps-Leaves "192.0.2.1" 50 knocking started
      (let v = knock "/api/v1/auth/verify" (inl refl) in
        (
          v,
          (
            v,
            (
              knock "/api/v1/auth/register" (inr (inl refl)),
              (tt, (v, (health_kept, (v, (v, (v, tt)))))),
            ),
          ),
        ))
      (ground arith) refl

dice_endpoint_example :
    let r = request_to "GET" "/api/v1/dice" "count" in
    Reads r blank started
      (error_of "sides" (binder.bind_int "sides" r.query)
        ∷ error_of "count" (binder.bind_int "count" r.query)
        ∷ [])
      (λ out. Read (binder.bind_int "sides" r.query) λ sides.
        Read (binder.bind_int "count" r.query) λ count.
          Draws source_part
            (DiceAnswer lib source_part srv binder r blank started sides count)
            started
            out)
      (Wrapper.roll_dice (wrapper_of (server lib source_part srv)) binder r blank started)
dice_endpoint_example =
    dice_endpoint lib source_part srv binder (request_to "GET" "/api/v1/dice" "count") blank started

coordinates_endpoint_example :
    let r = request_to "GET" "/api/v1/coordinates" "land_only" in
    Reads r blank started
      (error_of "count" (binder.bind_int "count" r.query)
        ∷ error_of "land_only" (binder.bind_bool "land_only" r.query)
        ∷ [])
      (λ out. Read (binder.bind_int "count" r.query) λ count.
        Read (binder.bind_bool "land_only" r.query) λ land_only.
          Draws source_part
            (PlacesAnswer lib source_part srv binder r blank started whole-Rounds count land_only)
            started
            out)
      (Wrapper.generate_coordinates
        (wrapper_of (server lib source_part srv))
        binder
        r
        blank
        started)
coordinates_endpoint_example =
    coordinates_endpoint lib source_part srv binder
      (request_to "GET" "/api/v1/coordinates" "land_only") blank started whole-Rounds
