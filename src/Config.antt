-- ===== src/Config.antt =====
-- api/internal/config/config.go: the configuration from the environment. A variable that is not set
-- reads as the empty string, as `os.Getenv` gives it.
use Prim.Native.Char.{code}
use zaas.Prelude.{
  ℕ, ◌+◌, ◌-◌, ◌*◌, ◌^◌, String, Bool, true, false, ◌&&◌, ◌||◌, Option, none, some, ltb, leb, ◌==◌,
  str_eq, default_to, if◌then◌else◌,
}
use zaas.Prelude.Int.{ℤ, pos, negsuc}

pub record Config : Type 0 where
  pub port : String
  pub base_url : String
  pub log_level : String
  pub log_format : String
  pub cors_origins : String
  pub rate_limit_rpm : ℤ
  pub rate_limit_backend : String
  pub redis_url : String
  pub database_url : String
  pub otel_enabled : Bool
  pub environment : String
  pub metrics_endpoint_enabled : Bool
  pub smtp_host : String
  pub smtp_port : ℤ
  pub smtp_user : String
  pub smtp_password : String
  pub smtp_from : String
  pub admin_token : String

-- The number that decimal digits add to `n`.
unfoldable pub digits_value : ℕ → String → Option ℕ
digits_value n String.[] = some n
digits_value n (String.◌∷◌ c s) =
    let rest = digits_value (n * 10 + (code c - b'0')) s in
    if leb b'0' (code c) && leb (code c) b'9' then rest else none

-- At least one digit.
unfoldable pub digits : String → Option ℕ
unfolding digits_value
digits s = if str_eq s "" then none else digits_value 0 s

-- `int` has 64 bits.
abbrev pub int_of : Bool → ℕ → Option ℤ
int_of true n =
    if n == 0 then some (pos 0) else (if leb n (2 ^ 63) then some (negsuc (n - 1)) else none)
int_of false n = if ltb n (2 ^ 63) then some (pos n) else none

abbrev pub signed : Bool → Option ℕ → Option ℤ
signed negative none = none
signed negative (some n) = int_of negative n

-- `strconv.Atoi`
unfoldable pub atoi : String → Option ℤ
unfolding digits
atoi String.[] = none
atoi (String.◌∷◌ c s) =
    if code c == b'-'
    then signed true (digits s)
    else (if code c == b'+'
        then signed false (digits s)
        else signed false (digits (String.◌∷◌ c s)))

-- `strconv.ParseBool`
unfoldable pub parse_bool : String → Option Bool
parse_bool s =
    if str_eq s "1"
      || str_eq s "t"
      || str_eq s "T"
      || str_eq s "true"
      || str_eq s "TRUE"
      || str_eq s "True"
    then some true
    else (if str_eq s "0"
          || str_eq s "f"
          || str_eq s "F"
          || str_eq s "false"
          || str_eq s "FALSE"
          || str_eq s "False"
        then some false
        else none)

module _ (getenv : String → String) where
  unfoldable pub get_env : String → String → String
  get_env key default_val = if str_eq (getenv key) "" then default_val else getenv key

  unfoldable pub get_env_int : String → ℤ → ℤ
  unfolding atoi
  get_env_int key default_val =
      if str_eq (getenv key) "" then default_val else default_to (atoi (getenv key)) default_val

  unfoldable pub get_env_bool : String → Bool → Bool
  unfolding parse_bool
  get_env_bool key default_val =
      if str_eq (getenv key) ""
      then default_val
      else default_to (parse_bool (getenv key)) default_val

  unfoldable pub load : Config
  unfolding get_env get_env_int get_env_bool
  load = record {
    port = get_env "ZAAS_PORT" "8080";
    base_url = get_env "ZAAS_BASE_URL" "http://localhost:8080";
    log_level = get_env "ZAAS_LOG_LEVEL" "info";
    log_format = get_env "ZAAS_LOG_FORMAT" "text";
    cors_origins = get_env "ZAAS_CORS_ORIGINS" "*";
    rate_limit_rpm = get_env_int "ZAAS_RATE_LIMIT_RPM" (pos 60);
    rate_limit_backend = get_env "ZAAS_RATE_LIMIT_BACKEND" "memory";
    redis_url = get_env "ZAAS_REDIS_URL" "";
    database_url = get_env "ZAAS_DB_URL" "";
    otel_enabled = get_env_bool "ZAAS_OTEL_ENABLED" true;
    environment = get_env "ZAAS_ENVIRONMENT" "development";
    metrics_endpoint_enabled = get_env_bool "ZAAS_METRICS_ENDPOINT_ENABLED" false;
    smtp_host = get_env "ZAAS_SMTP_HOST" "smtp.migadu.com";
    smtp_port = get_env_int "ZAAS_SMTP_PORT" (pos 587);
    smtp_user = get_env "ZAAS_SMTP_USER" "";
    smtp_password = get_env "ZAAS_SMTP_PASSWORD" "";
    smtp_from = get_env "ZAAS_SMTP_FROM" "ZaaS <noreply@zaas.at>";
    admin_token = get_env "ZAAS_ADMIN_TOKEN" "";
  }
