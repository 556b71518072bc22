-- ===== src/Handlers/Health.antt =====
-- api/internal/handler/health.go, metrics.go and openapi.go.
use zaas.Prelude.{String, [], ◌∷◌, Option, none, some}
use zaas.Http.{Response, Handler, text, object, bytes, set_header, write_header, encode}

abbrev pub health_body : String → Response → Response
health_body status w =
    encode (object (("status", text status) ∷ []))
      (write_header 200 (set_header "Content-Type" "application/json" w))

unfoldable pub healthz : {S : Type 0} → Handler S
healthz r w s = (health_body "ok" w, s)

unfoldable pub readyz : {S : Type 0} → Handler S
readyz r w s = (health_body "ready" w, s)

-- `http.NotFound`
abbrev pub not_found : Response → Response
not_found w = encode (bytes "404 page not found\n") (
    write_header 404 (
      set_header "X-Content-Type-Options" "nosniff"
        (set_header "Content-Type" "text/plain; charset=utf-8" w)))

unfoldable pub metrics_handler : {S : Type 0} → Option (Handler S) → Handler S
metrics_handler none r w s = (not_found w, s)
metrics_handler (some h) r w s = h r w s

-- `spec` is the embedded openapi.yaml.
unfoldable pub openapi_spec : {S : Type 0} → String → Handler S
openapi_spec spec r w s =
    (encode (bytes spec) (write_header 200 (set_header "Content-Type" "application/yaml" w)), s)
