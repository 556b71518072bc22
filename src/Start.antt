-- ===== src/Start.antt =====
-- The start and the end of the server. A procedure gives its result and what it does to the outside:
-- which resources it opens and closes, and when it begins to serve. What the libraries answer is
-- `Outside`: `none` where a call goes through, else the text of its error.
pub mod Telemetry
pub mod Connect
pub mod Main
pub mod Leaks
pub mod Serves
mod Tests
use zaas.Prelude.{String, List, [], ◌∷◌, ◌++◌, Option, none, some, Bool}
use zaas.Prelude.Text.{◌^^◌}
use zaas.Email.{SmtpConfig}

-- What has to be closed again.
pub data Resource : Type 0 where
  trace_exporter metric_exporter log_exporter : Resource
  pool sql_db redis_client memory_limiter : Resource

pub data Backend : Type 0 where
  redis_backend memory_backend : Backend

-- What `NewRouter` is given: the database, the sender of emails, the limiter, the metrics.
pub record Wiring : Type 0 where
  pub has_store : Bool
  pub email : Option SmtpConfig
  pub limiter : Backend
  pub has_metrics : Bool

pub data Effect : Type 0 where
  opened closed : Resource → Effect
  listening : String → Wiring → Effect

-- How serving ends: `ListenAndServe` fails, or a signal comes and `Shutdown` goes through or fails.
pub data Ending : Type 0 where
  server_failed : String → Ending
  signalled : Option String → Ending

pub record Outside : Type 0 where
  pub new_resource : Option String
  pub trace_exporter : Option String
  pub metric_exporter : Option String
  pub log_exporter : Option String
  pub prometheus_exporter : Option String
  pub trace_shutdown : Option String
  pub metric_shutdown : Option String
  pub log_shutdown : Option String
  pub parse_pool_config : Option String
  pub new_pool : Option String
  pub ping : Option String
  pub sql_open : Option String
  pub set_dialect : Option String
  pub migrate : Option String
  pub parse_redis_url : Option String
  pub instrument_tracing : Option String
  pub redis_ping : Option String
  pub ending : Ending

pub data Res (A : Type 0) : Type 0 where
  ok : A → Res A
  err : String → Res A

abbrev pub Proc : Type 0 → Type 0
Proc A = Res A × List Effect

module _ {A B : Type 0} where
  infixl 5 ◌>>=◌
  abbrev pub ◌>>=◌ : Proc A → (A → Proc B) → Proc B
  (ok a, es) >>= f = ((f a).0, es ++ (f a).1)
  (err e, es) >>= f = (err e, es)

infixl 5 ◌>>◌
abbrev pub ◌>>◌ : {B : Type 0} → Proc (Unit {0}) → Proc B → Proc B
m >> k = m >>= λ _. k

module _ {A : Type 0} where
  abbrev pub return : A → Proc A
  return a = (ok a, [])

  -- `fmt.Errorf("what: %w", err)` of the error of a call.
  abbrev pub wrap : String → Proc A → Proc A
  wrap what (ok a, es) = (ok a, es)
  wrap what (err e, es) = (err (what ^^ ": " ^^ e), es)

  -- `defer`: the effects come at the end, whatever the result is.
  abbrev pub with_defer : List Effect → Proc A → Proc A
  with_defer last m = (m.0, m.1 ++ last)

abbrev pub tell : Effect → Proc (Unit {0})
tell e = (ok tt, e ∷ [])

-- `if err != nil { cleanup; return fmt.Errorf("what: %w", err) }`
abbrev pub check : Option String → String → List Effect → Proc (Unit {0})
check none what cleanup = (ok tt, [])
check (some e) what cleanup = (err (what ^^ ": " ^^ e), cleanup)
