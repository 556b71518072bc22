-- ===== src/Router/World.antt =====
-- A server of api/cmd/server/main.go on a small router, for the tests of the router.
use zaas.Prelude.{
  ℕ, suc, refl, ap, String, true, false, List, [], Option, none, some, str_eq, if◌then◌else◌,
}
use zaas.Prelude.Int.{pos}
use zaas.Prelude.Lens.{Lens}
use zaas.Config.{Config}
use zaas.Http.{Request, Handler}
use zaas.Store.{Client, ClientStore, not_found, ok, err}
use zaas.Service.Gen.{Source, pure}
use zaas.Service.Float.Whole.{whole}
use zaas.Service.SshKey.Sample.{ssh}
use zaas.RateLimiter.Memory.{MemoryRateLimiter, new_memory_rate_limiter}
use zaas.OpenApi.Wrapper.{QueryBinder, bound, malformed}
use zaas.Handlers.Health
use zaas.Handlers.Auth.{Server}
use zaas.Handlers.Server.{Libraries, server}
use zaas.Router.{Route, Chi, Deps, memory_limiter}
use zaas.Router.Dispatch.{compose, find_route, ChiLaws}

pub record World : Type 0 where
  pub api : MemoryRateLimiter
  pub auth : MemoryRateLimiter
  pub source : Source
  pub logged : ℕ

abbrev pub api_part : Lens World MemoryRateLimiter
api_part = record { get = λ s. s.api; put = λ rl s. record s { api = rl }; get-put = λ rl s. refl }

abbrev pub auth_part : Lens World MemoryRateLimiter
auth_part = record {
  get = λ s. s.auth;
  put = λ rl s. record s { auth = rl };
  get-put = λ rl s. refl;
}

abbrev pub source_part : Lens World Source
source_part = record {
  get = λ s. s.source;
  put = λ g s. record s { source = g };
  get-put = λ g s. refl;
}

abbrev pub started : World
unfolding new_memory_rate_limiter
started = record {
  api = new_memory_rate_limiter (pos 60);
  auth = new_memory_rate_limiter (pos 5);
  source = record { draws = λ k. k; fails = λ _. false; taken = 0 };
  logged = 0;
}

-- The requests that find a route, and 404 for the rest.
abbrev run_found : Option (Route World) → Handler World
run_found none r w s = (Health.not_found w, s)
run_found (some route) r w s = compose route.middlewares route.handler r w s

abbrev mux : List (Route World) → Handler World
mux rs r = run_found (find_route r.method r.path rs) r

abbrev pub chi : Chi World
chi = record {
  request_id = λ next r. next (record r { request_id = "r-1" });
  client_ip_from_header = λ name next. next;
  serve = λ ms rs. compose ms (mux rs);
}

pub chi_laws : ChiLaws chi
chi_laws = record {
  mux = mux;
  id_of = λ r. "r-1";
  serve_lem = λ ms rs r w s. refl;
  mux_found = λ rs route r w s found. ap (λ o. run_found o r w s) found;
  request_id_lem = λ next r w s. refl;
  client_ip_lem = λ name next r w s. refl;
}

abbrev pub ann : Client
ann = record {
  id = "id-7";
  email = "a@example.com";
  display_name = "Ann";
  api_key_hash = "zaas_key";
  api_key_prefix = "zaas_key";
  rate_limit_rpm = pos 600;
  created_at = 5;
  verified_at = some 6;
  revoked_at = none;
}

abbrev pub clients : ClientStore World
clients = record {
  create_client = λ _ _ s. (err not_found, s);
  get_client_by_email = λ _ s. (err not_found, s);
  get_client_by_api_key_hash =
      λ hash s. (if str_eq hash "zaas_key" then ok (some ann) else err not_found, s);
  mark_client_verified = λ _ _ _ s. (err not_found, s);
  revoke_client = λ _ s. (err not_found, s);
}

-- A server whose auth endpoints are disabled.
abbrev pub srv : Server World
srv = record {
  store = none;
  tokens = record {
    create_token = λ _ _ _ _ s. (err not_found, s);
    consume_token = λ _ _ s. (err not_found, s);
  };
  email = none;
  base_url = "https://zaas.at";
  parse_address = λ s. some s;
  rand_read = λ _ s. ([], s);
  sha256_hex = λ s. s;
}

abbrev pub lib : Libraries
lib = record {
  decode_register = λ _. none;
  decode_verify = λ _. none;
  decode_reissue = λ _. none;
  floats = whole;
  decimal = λ x. "0";
  ssh = ssh;
  new_uuid = pure "01234567-89ab-4def-89ab-0123456789ab";
  quote = λ s. s;
  spec = "openapi: 3.1.0";
}

-- Queries that give one parameter, as `name` for the value 3, or as `name=?` for one that is not read.
abbrev pub binder : QueryBinder
binder = record {
  bind_string = λ name query. bound none;
  bind_int = λ name query. if str_eq query name then bound (some (pos 3)) else bound none;
  bind_bool = λ name query. if str_eq query name then malformed "not a Boolean" else bound none;
}

abbrev pub cfg : Config
cfg = record {
  port = "8080";
  base_url = "https://zaas.at";
  log_level = "info";
  log_format = "json";
  cors_origins = "*";
  rate_limit_rpm = pos 60;
  rate_limit_backend = "memory";
  redis_url = "";
  database_url = "postgres://zaas";
  otel_enabled = true;
  environment = "test";
  metrics_endpoint_enabled = true;
  smtp_host = "";
  smtp_port = pos 587;
  smtp_user = "";
  smtp_password = "";
  smtp_from = "";
  admin_token = "secret";
}

abbrev pub deps : Deps World
deps = record {
  cfg = cfg;
  rl = memory_limiter api_part;
  prometheus = none;
  srv = server lib source_part srv;
  client_store = some clients;
  auth_rl = auth_part;
  binder = binder;
  sha256_hex = λ s. s;
  log = λ e s. record s { logged = suc s.logged };
}

abbrev pub request_to : String → String → String → Request
request_to method path query = record {
  method = method;
  path = path;
  query = query;
  body = "";
  headers = λ _. none;
  remote_addr = "192.0.2.1:4711";
  client = none;
  request_id = "";
  clock = 100;
}
