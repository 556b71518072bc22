-- ===== src/Start/Telemetry.antt =====
-- api/internal/telemetry/telemetry.go. The providers and exporters of OpenTelemetry are resources; the
-- environment variable of the sampler and `strconv.ParseFloat` are parameters.
use zaas.Prelude.{
  String, Bool, true, false, not, ◌&&◌, ◌||◌, List, [], ◌∷◌, ◌++◌, Option, none, some, str_eq,
  if◌then◌else◌,
}
use zaas.Prelude.Int.{pos}
use zaas.Prelude.Text.{◌^^◌, join}
use zaas.Service.Float.{Float64}
use zaas.Start.{
  trace_exporter, metric_exporter, log_exporter, Effect, opened, closed, Outside, Proc, ◌>>◌,
  return, tell, check,
}

pub record Params : Type 0 where
  pub enabled : Bool
  pub service_name : String
  pub version : String
  pub environment : String
  pub instance_id : String

-- `shutdown` are the effects of calling `Shutdown`.
pub record Result : Type 0 where
  pub shutdown : List Effect
  pub prometheus_handler : Bool
  pub attributes : Option (List (String × String))

abbrev pub attribute : String → String → List (String × String)
attribute key value = if str_eq value "" then [] else (key, value) ∷ []

unfoldable pub build_resource : Params → List (String × String)
build_resource p =
    attribute "service.name" p.service_name
    ++ attribute "service.version" p.version
    ++ attribute "deployment.environment" p.environment
    ++ attribute "service.instance.id" p.instance_id

-- The ratio of `buildSampler`; `arg` is OTEL_TRACES_SAMPLER_ARG.
unfoldable pub build_sampler : (fl : Float64) → (String → Option fl.F) → String → fl.F
build_sampler fl parse_float arg =
    let whole = fl.of_int (pos 1) in
    if str_eq arg "" then whole else elim (parse_float arg) [
      | none ↦ whole
      | some f ↦
          if (fl.is_less (fl.of_int (pos 0)) f || fl.is_equal f (fl.of_int (pos 0)))
            && (fl.is_less f whole || fl.is_equal f whole)
          then f
          else whole
    ]

-- The text of an error, if there is one.
abbrev pub text_of : Option String → List String
text_of none = []
text_of (some e) = e ∷ []

-- All three providers are shut down, and their errors joined.
unfoldable pub shutdown_providers : Outside → Option String × List Effect
shutdown_providers out =
    let errs =
      text_of out.trace_shutdown ++ text_of out.metric_shutdown ++ text_of out.log_shutdown in
    (
      elim errs [ [] ↦ none | e ∷ es ↦ some ("telemetry shutdown: " ^^ join "\n" (e ∷ es)) ],
      closed trace_exporter ∷ closed metric_exporter ∷ closed log_exporter ∷ [],
    )

unfoldable pub init : Params → Outside → Proc Result
unfolding shutdown_providers
init p out =
    if not p.enabled
    then return (record { shutdown = []; prometheus_handler = false; attributes = none })
    else (do
      check out.new_resource "build OTel resource" []
      check out.trace_exporter "create trace exporter" []
      tell (opened trace_exporter)
      check out.metric_exporter "create metric exporter" []
      tell (opened metric_exporter)
      check out.log_exporter "create log exporter" []
      tell (opened log_exporter)
      check out.prometheus_exporter "create prometheus exporter" []
      return (record {
        shutdown = (shutdown_providers out).1;
        prometheus_handler = true;
        attributes = some (build_resource p);
      }))
