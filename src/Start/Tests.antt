-- ===== src/Start/Tests.antt =====
-- Concrete starts of the server of api/cmd/server/main.go.
use zaas.Prelude.{none, some}
use zaas.Config.{Config}
use zaas.Start.{Outside, signalled}
use zaas.Router.World.{cfg}

-- The migrations fail.
abbrev no_migration : Outside
no_migration = record {
  new_resource = none;
  trace_exporter = none;
  metric_exporter = none;
  log_exporter = none;
  prometheus_exporter = none;
  trace_shutdown = none;
  metric_shutdown = some "deadline exceeded";
  log_shutdown = none;
  parse_pool_config = none;
  new_pool = none;
  ping = none;
  sql_open = none;
  set_dialect = none;
  migrate = some "dirty database";
  parse_redis_url = none;
  instrument_tracing = none;
  redis_ping = none;
  ending = signalled none;
}

abbrev on_redis : Config
on_redis = record cfg { rate_limit_backend = "redis"; redis_url = "redis://cache" }
