-- ===== src/Handlers/Respond.antt =====
-- api/internal/handler/respond.go: how the handlers answer.
use zaas.Prelude.{
  ℕ, String, map, List, [], ◌∷◌, Option, none, some, map_get, default_to, if◌then◌else◌,
}
use zaas.Prelude.Int.{ℤ, pos, ltb_ℤ}
use zaas.Prelude.Text.{◌^^◌}
use zaas.Http.{
  Request, Response, Json, Meta, Body, problem, single_response, multi_response, set_header,
  write_header, encode,
}

abbrev pub slugs : List (String × String)
slugs =
    ("RATE_LIMITED", "rate-limited")
    ∷ ("INVALID_PARAM", "invalid-param")
    ∷ ("INTERNAL_ERROR", "internal-error")
    ∷ ("INVALID_API_KEY", "invalid-api-key")
    ∷ ("SERVICE_UNAVAILABLE", "service-unavailable")
    ∷ []

unfoldable pub problem_type_url : String → String
problem_type_url code = "https://zaas.at/errors/" ^^ default_to (map_get slugs code) "unknown"

abbrev pub titles : List (String × String)
titles =
    ("RATE_LIMITED", "Too Many Requests")
    ∷ ("INVALID_PARAM", "Bad Request")
    ∷ ("INTERNAL_ERROR", "Internal Server Error")
    ∷ ("INVALID_API_KEY", "Unauthorized")
    ∷ ("SERVICE_UNAVAILABLE", "Service Unavailable")
    ∷ []

unfoldable pub problem_title : String → String
problem_title code = default_to (map_get titles code) "Error"

-- `WriteError`
unfoldable pub write_error : Response → Request → ℕ → String → String → ℤ → Response
unfolding problem_type_url problem_title
write_error w r status code detail retry_after =
    encode
      (problem (record {
        type_url = problem_type_url code;
        title = problem_title code;
        status = status;
        detail = detail;
        instance_path = r.path;
        code = code;
        request_id = r.request_id;
        retry_after = if ltb_ℤ (pos 0) retry_after then some retry_after else none;
      }))
      (write_header status (set_header "Content-Type" "application/problem+json" w))

-- `buildMeta`; the parameters are copied.
abbrev pub build_meta : Request → List (String × Json) → Meta
build_meta r params = record {
  endpoint = r.path;
  timestamp = r.clock;
  params = params;
  request_id = r.request_id;
}

-- `writeJSON`
abbrev pub write_json : Response → ℕ → Body → Response
write_json w status body =
    encode body (write_header status (set_header "Content-Type" "application/json" w))

-- `WriteSingle`
abbrev pub write_single : Response → Request → Json → List (String × Json) → Response
write_single w r result params = write_json w 200 (single_response result (build_meta r params))

-- `WriteMultiple`
abbrev pub write_multiple : Response → Request → List Json → List (String × Json) → Response
write_multiple w r results params = write_json w 200 (multi_response results (build_meta r params))

-- `writeResults`; `to_json` is how the encoder writes an element.
unfoldable pub write_results :
    {T : Type 0} → (T → Json) → Response → Request → List T → List (String × Json) → Response
write_results to_json w r (x ∷ []) params = write_single w r (to_json x) params
write_results to_json w r results params = write_multiple w r (map to_json results) params

-- `defaultPtr`
abbrev pub default_ptr {ℓ} : {T : Type ℓ} → Option T → T → T
default_ptr p def = default_to p def
