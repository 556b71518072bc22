-- ===== src/Start/Connect.antt =====
-- `ConnectAndMigrate` of api/internal/store/store.go and `NewRedisRateLimiter` of
-- api/internal/ratelimiter/redis.go.
use zaas.Prelude.{[], ◌∷◌}
use zaas.Start.{
  pool, sql_db, redis_client, opened, closed, Outside, Proc, ◌>>◌, with_defer, tell, check,
}

-- `BuildPoolConfig`
abbrev pub build_pool_config : Outside → Proc (Unit {0})
build_pool_config out = check out.parse_pool_config "parse pool config" []

unfoldable pub connect_and_migrate : Outside → Proc (Unit {0})
connect_and_migrate out = do
  build_pool_config out
  check out.new_pool "connect to database" []
  tell (opened pool)
  check out.ping "ping database" (closed pool ∷ [])
  check out.sql_open "open sql.DB for goose" (closed pool ∷ [])
  tell (opened sql_db)
  with_defer (closed sql_db ∷ []) (do
    check out.set_dialect "set goose dialect" (closed pool ∷ [])
    check out.migrate "run migrations" (closed pool ∷ []))

unfoldable pub new_redis_rate_limiter : Outside → Proc (Unit {0})
new_redis_rate_limiter out = do
  check out.parse_redis_url "parse redis URL" []
  tell (opened redis_client)
  check out.instrument_tracing "instrument redis tracing" []
  check out.redis_ping "redis ping" []
