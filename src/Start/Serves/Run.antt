-- ===== src/Start/Serves/Run.antt =====
-- When `run` of api/cmd/server/main.go begins to serve, and with what.
use zaas.Prelude.{◌≡◌, Bool, [], if◌then◌else◌}
use zaas.Config.{Config}
use zaas.Start.{Backend, redis_backend, memory_backend, Wiring, Outside, ◌>>◌}
use zaas.Start.Telemetry.{Params}
use zaas.Start.Telemetry
use zaas.Start.Main.{init_email}
use zaas.Start.Serves.{listens}

abbrev Anything : {A : Type 0} → A → Type 0
Anything a = Unit

abbrev IsInit : Params → Telemetry.Result → Type 0
IsInit p t = (t.prometheus_handler ≡ p.enabled) × (listens t.shutdown ≡ [])

module _ (cfg : Config) (out : Outside) where
  abbrev chosen : Bool → Backend
  chosen wants_redis = if wants_redis then redis_backend else memory_backend

  abbrev wiring_with : Telemetry.Result → Bool → Backend → Wiring
  wiring_with telemetry has_store limiter = record {
    has_store = has_store;
    email = init_email cfg out has_store;
    limiter = limiter;
    has_metrics = telemetry.prometheus_handler;
  }
