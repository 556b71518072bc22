-- ===== src/Start/Leaks/Run.antt =====
-- What `run` of api/cmd/server/main.go leaves open.
use zaas.Prelude.{◌≡◌, Bool, true, List, [], ◌∷◌, none, str_eq, if◌then◌else◌}
use zaas.Config.{Config}
use zaas.Start.{
  Resource, pool, redis_client, memory_limiter, Backend, redis_backend, memory_backend, Outside,
  ◌>>◌,
}
use zaas.Start.Telemetry

-- Every call after which a step would leave something open goes through: the exporters of telemetry
-- after the first, and the last two steps of connecting to Redis.
pub record Connects (cfg : Config) (out : Outside) : Type 0 where
  pub telemetry :
      cfg.otel_enabled ≡ true
      → (out.metric_exporter ≡ none) × (out.log_exporter ≡ none) × (out.prometheus_exporter ≡ none)
  pub redis :
      str_eq cfg.rate_limit_backend "redis" ≡ true
      → (out.instrument_tracing ≡ none) × (out.redis_ping ≡ none)

module _ (cfg : Config) (out : Outside) where
  abbrev own_db : Bool → List Resource
  own_db has_store = if has_store then pool ∷ [] else []

  abbrev own_rl : Backend → List Resource
  own_rl redis_backend = redis_client ∷ []
  own_rl memory_backend = memory_limiter ∷ []
