-- ===== src/Middleware/Problem.antt =====
-- `writeProblem` of api/internal/middleware/auth.go: the 401 answer of the middleware.
use zaas.Prelude.{String, List, [], ◌∷◌, none, map_get, default_to}
use zaas.Prelude.Text.{◌^^◌}
use zaas.Http.{Request, Response, Problem, problem, set_header, write_header, encode}

abbrev pub slugs : List (String × String)
slugs =
    ("RATE_LIMITED", "rate-limited")
    ∷ ("INVALID_PARAM", "invalid-param")
    ∷ ("INTERNAL_ERROR", "internal-error")
    ∷ ("INVALID_API_KEY", "invalid-api-key")
    ∷ ("SERVICE_UNAVAILABLE", "service-unavailable")
    ∷ ("INVALID_ADMIN_TOKEN", "invalid-admin-token")
    ∷ []

abbrev pub titles : List (String × String)
titles =
    ("RATE_LIMITED", "Too Many Requests")
    ∷ ("INVALID_PARAM", "Bad Request")
    ∷ ("INTERNAL_ERROR", "Internal Server Error")
    ∷ ("INVALID_API_KEY", "Unauthorized")
    ∷ ("SERVICE_UNAVAILABLE", "Service Unavailable")
    ∷ ("INVALID_ADMIN_TOKEN", "Unauthorized")
    ∷ []

abbrev pub problem_body : Request → String → String → Problem
problem_body r code detail = record {
  type_url = "https://zaas.at/errors/" ^^ default_to (map_get slugs code) "unknown";
  title = default_to (map_get titles code) "Error";
  status = 401;
  detail = detail;
  instance_path = r.path;
  code = code;
  request_id = r.request_id;
  retry_after = none;
}

unfoldable pub write_problem : Request → Response → String → String → Response
write_problem r w code detail =
    encode (problem (problem_body r code detail))
      (write_header 401 (set_header "Content-Type" "application/problem+json" w))
