-- ===== src/Start/Main.antt =====
-- api/cmd/server/main.go: the wiring of the server, and its life from start to end. The log is left
-- out, but for its level; `instance_id` is the UUID that `run` draws.
use zaas.Prelude.{
  ℕ, String, Bool, true, false, not, ◌||◌, List, [], ◌∷◌, Option, none, some, str_eq, if◌then◌else◌,
}
use zaas.Prelude.Text.{◌^^◌}
use zaas.Config.{Config}
use zaas.Email.{SmtpConfig}
use zaas.Start.{
  pool, redis_client, memory_limiter, Backend, redis_backend, memory_backend, Wiring, Effect,
  opened, closed, listening, Ending, server_failed, signalled, Outside, Res, ok, err, Proc, ◌>>=◌,
  ◌>>◌, return, wrap, with_defer, tell,
}
use zaas.Start.Telemetry.{Params, init}
use zaas.Start.Telemetry
use zaas.Start.Connect.{connect_and_migrate, new_redis_rate_limiter}

pub data LogLevel : Type 0 where
  level_debug level_info level_warn level_error : LogLevel

-- The `switch` of `main`.
abbrev pub log_level : String → LogLevel
log_level name =
    if str_eq name "debug"
    then level_debug
    else (if str_eq name "warn"
        then level_warn
        else (if str_eq name "error" then level_error else level_info))

module _ (cfg : Config) (out : Outside) where
  -- Whether there is a store.
  unfoldable pub init_store : Proc Bool
  unfolding connect_and_migrate
  init_store =
      if str_eq cfg.database_url ""
      then return false
      else (do wrap "database setup" (connect_and_migrate out); return true)

  -- The function that `initStore` gives to close the database.
  abbrev pub close_db : Bool → List Effect
  close_db has_store = if has_store then closed pool ∷ [] else []

  unfoldable pub init_email : Bool → Option SmtpConfig
  init_email has_store =
      if str_eq cfg.smtp_host "" || not has_store
      then none
      else some (record {
        host = cfg.smtp_host;
        port = cfg.smtp_port;
        user = cfg.smtp_user;
        password = cfg.smtp_password;
        from = cfg.smtp_from;
      })

  unfoldable pub init_rate_limiter : Proc Backend
  unfolding new_redis_rate_limiter
  init_rate_limiter =
      if str_eq cfg.rate_limit_backend "redis"
      then (if str_eq cfg.redis_url ""
          then (err "ZAAS_RATE_LIMIT_BACKEND=redis requires ZAAS_REDIS_URL to be set", [])
          else (do
            wrap "init redis rate limiter" (new_redis_rate_limiter out)
            return redis_backend))
      else (do tell (opened memory_limiter); return memory_backend)

  abbrev pub close_rl : Backend → List Effect
  close_rl redis_backend = closed redis_client ∷ []
  close_rl memory_backend = closed memory_limiter ∷ []

  abbrev pub ended : Ending → Res (Unit {0})
  ended (server_failed e) = err ("server error: " ^^ e)
  ended (signalled none) = ok tt
  ended (signalled (some e)) = err ("graceful shutdown: " ^^ e)

  unfoldable pub serve : Wiring → Proc (Unit {0})
  serve wiring = (ended out.ending, listening (":" ^^ cfg.port) wiring ∷ [])

  -- `run` from the telemetry on.
  unfoldable pub run_with : Telemetry.Result → Proc (Unit {0})
  unfolding init_store init_email init_rate_limiter serve
  run_with telemetry = do
    has_store ← init_store
    with_defer (close_db has_store) (do
      limiter ← init_rate_limiter
      with_defer (close_rl limiter) (
          serve record {
            has_store = has_store;
            email = init_email has_store;
            limiter = limiter;
            has_metrics = telemetry.prometheus_handler;
          }))

  unfoldable pub run : String → String → Proc (Unit {0})
  unfolding run_with init
  run version instance_id = do
    telemetry ← wrap "init telemetry" (
        init
          (record {
            enabled = cfg.otel_enabled;
            service_name = "zaas-api";
            version = version;
            environment = cfg.environment;
            instance_id = instance_id;
          })
          out)
    with_defer telemetry.shutdown (run_with telemetry)

  -- The exit status of `main`.
  unfoldable pub exit_status : String → String → ℕ
  unfolding run
  exit_status version instance_id = elim (run version instance_id).0 [ ok _ ↦ 0 | err _ ↦ 1 ]
