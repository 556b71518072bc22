-- ===== src/Start/Leaks/Parts.antt =====
-- What connecting to the database and to Redis and starting the telemetry leave open.
use zaas.Prelude.{
  ◌≡◌, refl, ap, String, Bool, true, false, List, [], ◌∷◌, ◌++◌, Option, none, some, subst,
  if◌then◌else◌,
}
use zaas.Start.{
  Resource, trace_exporter, metric_exporter, log_exporter, pool, redis_client, Outside, Res, ok,
  err,
}
use zaas.Start.Telemetry.{Params, init}
use zaas.Start.Telemetry
use zaas.Start.Connect.{connect_and_migrate, new_redis_rate_limiter}
use zaas.Start.Leaks.{leaked, Holds, one}

-- The database is open exactly where connecting and migrating went through.
pub connect_and_migrate-Holds : (out : Outside) → Holds (one pool) (connect_and_migrate out)
unfolding connect_and_migrate
connect_and_migrate-Holds out =
    go out.parse_pool_config out.new_pool out.ping out.sql_open out.set_dialect out.migrate
  where
    go :
        (a b c d e f : Option String)
        → Holds (one pool) (
            connect_and_migrate (record out {
              parse_pool_config = a;
              new_pool = b;
              ping = c;
              sql_open = d;
              set_dialect = e;
              migrate = f;
            }))
    go (some _) _ _ _ _ _ = record { at = λ held. refl }
    go none (some _) _ _ _ _ = record { at = λ held. refl }
    go none none (some _) _ _ _ = record { at = λ held. refl }
    go none none none (some _) _ _ = record { at = λ held. refl }
    go none none none none (some _) _ = record { at = λ held. refl }
    go none none none none none (some _) = record { at = λ held. refl }
    go none none none none none none = record { at = λ held. refl }

module _ (out : Outside) where
  abbrev redis_with : Option String → Option String → Option String → Outside
  redis_with a b c = record out { parse_redis_url = a; instrument_tracing = b; redis_ping = c }

  pub new_redis-Holds :
      out.instrument_tracing ≡ none
      → out.redis_ping ≡ none
      → Holds (one redis_client) (new_redis_rate_limiter out)
  unfolding new_redis_rate_limiter
  new_redis-Holds = go out.parse_redis_url out.instrument_tracing out.redis_ping
    where
      go :
          (a b c : Option String)
          → b ≡ none
          → c ≡ none
          → Holds (one redis_client) (new_redis_rate_limiter (redis_with a b c))
      go (some _) _ _ h k = record { at = λ held. refl }
      go none (some _) _ h k = cc
      go none none (some _) h k = cc
      go none none none h k = record { at = λ held. refl }

  -- Connecting to Redis leaves the client open also where one of its last two steps fails.
  new_redis_leaks :
      (held : List Resource)
      → out.parse_redis_url ≡ none
      → leaked held (new_redis_rate_limiter out).1 ≡ redis_client ∷ held
  unfolding new_redis_rate_limiter
  new_redis_leaks held = go out.parse_redis_url out.instrument_tracing out.redis_ping
    where
      go :
          (a b c : Option String)
          → a ≡ none
          → leaked held (new_redis_rate_limiter (redis_with a b c)).1 ≡ redis_client ∷ held
      go (some _) _ _ h = cc
      go none (some _) _ h = refl
      go none none (some _) h = refl
      go none none none h = refl

  abbrev telemetry_with :
      Option String → Option String → Option String → Option String → Option String → Outside
  telemetry_with a b c d e = record out {
    new_resource = a;
    trace_exporter = b;
    metric_exporter = c;
    log_exporter = d;
    prometheus_exporter = e;
  }

  -- The exporters, where there are any.
  abbrev pub exporters : Telemetry.Result → List Resource
  exporters result =
      if result.prometheus_handler then log_exporter ∷ metric_exporter ∷ trace_exporter ∷ [] else []

  pub init-Holds :
      (p : Params)
      → (p.enabled ≡ true
          → (out.metric_exporter ≡ none)
            × (out.log_exporter ≡ none)
            × (out.prometheus_exporter ≡ none))
      → Holds exporters (init p out)
  unfolding init
  init-Holds p =
      go p.enabled out.new_resource out.trace_exporter out.metric_exporter out.log_exporter
        out.prometheus_exporter
    where
      go :
          (on : Bool) (a b c d e : Option String)
          → (on ≡ true → (c ≡ none) × (d ≡ none) × (e ≡ none))
          → Holds exporters (init (record p { enabled = on }) (telemetry_with a b c d e))
      go false _ _ _ _ _ h = record { at = λ held. refl }
      go true (some _) _ _ _ _ h = record { at = λ held. refl }
      go true none (some _) _ _ _ h = record { at = λ held. refl }
      go true none none (some _) _ _ h = cc ((h refl).0)
      go true none none none (some _) _ h = cc ((h refl).1)
      go true none none none none (some _) h = cc ((h refl).2)
      go true none none none none none h = record { at = λ held. refl }

  abbrev result_or : {A : Type 0} → A → Res A → A
  result_or a (ok b) = b
  result_or a (err e) = a

  pub init-shutdown :
      (p : Params) (result : Telemetry.Result) (held : List Resource)
      → (init p out).0 ≡ ok result
      → leaked (exporters result ++ held) result.shutdown ≡ held
  unfolding init
  init-shutdown p result held =
      go p.enabled out.new_resource out.trace_exporter out.metric_exporter out.log_exporter
        out.prometheus_exporter
    where
      go :
          (on : Bool) (a b c d e : Option String)
          → (init (record p { enabled = on }) (telemetry_with a b c d e)).0 ≡ ok result
          → leaked (exporters result ++ held) result.shutdown ≡ held
      go false _ _ _ _ _ h =
          subst (λ r. leaked (exporters r ++ held) r.shutdown ≡ held) (ap (result_or result) h) refl
      go true (some _) _ _ _ _ h = cc
      go true none (some _) _ _ _ h = cc
      go true none none (some _) _ _ h = cc
      go true none none none (some _) _ h = cc
      go true none none none none (some _) h = cc
      go true none none none none none h =
          subst (λ r. leaked (exporters r ++ held) r.shutdown ≡ held) (ap (result_or result) h) refl
