-- ===== src/Middleware/Tests.antt =====
-- Concrete requests at the middleware of api/internal/middleware.
use Prim.Native.Char.{char}
use zaas.Prelude.{
  ℕ, ◌≡◌, ◌≢◌, ◌≤◌, ◌<◌, ◌*◌, ◌+◌, ◌-◌, refl, String, true, false, [], ◌∷◌, none, some, str_eq,
  str_eq_iff, if◌then◌else◌,
}
use zaas.Prelude.Int.{pos}
use zaas.Prelude.Dict.{empty, insert}
use zaas.Prelude.Text.{show, split, trim_space}
use zaas.Http.{Request, Handler, blank, encode, object, text}
use zaas.Store.{Client, ClientStore, not_found, ok, err}
use zaas.RateLimiter.{answered, RateLimiter}
use zaas.Middleware.Auth.{auth, with_client, client_info_from_store}
use zaas.Middleware.Auth.Laws.{auth_accepts}
use zaas.Middleware.ClientIp.{has_char, extract_ip}
use zaas.Middleware.ClientIp.Laws.{extract_ip_trusts_proxy}
use zaas.Middleware.RateLimit.{rate_limit}
use zaas.Middleware.RateLimit.Laws.{rate_limit_refuses}
use zaas.Middleware.Cors.{cors_headers}
use zaas.Middleware.Cors.Laws.{granted, is_listed, cors_headers_grant}

-- A handler that counts its calls.
abbrev hello : Handler ℕ
hello r w n = (encode (object (("message", text "hello") ∷ [])) w, n + 1)

abbrev request_with : String → String → Request
request_with name value = record {
  method = "GET";
  path = "/v1/dice";
  query = "";
  body = "";
  headers = insert name value empty;
  remote_addr = "192.0.2.1:4711";
  client = none;
  request_id = "r-1";
  clock = 100;
}

abbrev ann : Client
ann = record {
  id = "id-7";
  email = "a@example.com";
  display_name = "Ann";
  api_key_hash = "zaas_key";
  api_key_prefix = "zaas_key";
  rate_limit_rpm = pos 600;
  created_at = 5;
  verified_at = some 6;
  revoked_at = none;
}

-- A store that knows one key, and counts the questions.
abbrev one_client : ClientStore ℕ
one_client = record {
  create_client = λ _ _ n. (err not_found, n);
  get_client_by_email = λ _ n. (err not_found, n);
  get_client_by_api_key_hash =
      λ hash n. (if str_eq hash "zaas_key" then ok (some ann) else err not_found, n + 1);
  mark_client_verified = λ _ _ _ n. (err not_found, n);
  revoke_client = λ _ n. (err not_found, n);
}

abbrev digest : String → String
digest s = s

-- A limiter that refuses, until one and a half seconds from the request's time.
abbrev refusing : RateLimiter ℕ
refusing = record {
  allow = λ key now n.
      (answered record { allowed = false; remaining = pos 0; reset_at = 1_500_000_100 }, n + 1);
  allow_n = λ key rpm now n.
      (answered record { allowed = false; remaining = pos 0; reset_at = 1_500_000_100 }, n + 1);
}

auth_accepts_example :
    auth digest (some one_client) hello (request_with "Authorization" "BEARER zaas_key") blank 0
    ≡ hello
        (with_client (request_with "Authorization" "BEARER zaas_key") (client_info_from_store ann))
        blank
        1
auth_accepts_example =
    auth_accepts digest one_client hello (request_with "Authorization" "BEARER zaas_key") blank 0 1
      "BEARER " "zaas_key" ann refl refl refl record { verified = λ e. cc; not_revoked = refl }

seen : ◌≢◌ {A = String} (trim_space " 203.0.113.9") ""
unfolding trim_space
seen e = let q : str_eq "203.0.113.9" "" ≡ true = (str_eq_iff _ _).1 e in cc

one_address : has_char b',' " 203.0.113.9" ≡ false
unfolding has_char
one_address = refl

extract_ip_trusts_proxy_example :
    extract_ip (request_with "X-Forwarded-For" "10.0.0.1, 8.8.8.8, 203.0.113.9")
    ≡ trim_space " 203.0.113.9"
extract_ip_trusts_proxy_example =
    extract_ip_trusts_proxy (request_with "X-Forwarded-For" "10.0.0.1, 8.8.8.8, 203.0.113.9")
      (char 44 tt) "10.0.0.1, 8.8.8.8" " 203.0.113.9" refl refl one_address seen

rate_limit_refuses_example :
    let (w, s'') = rate_limit refusing (pos 60) true hello (request_with "X" "") blank 0 in
    (w.status ≡ some 429)
    × (s'' ≡ 1)
    × ((n : ℕ) × (w.headers "Retry-After" ≡ some (show (pos n)))
        × (1 ≤ n)
        × (n * 1_000_000_000 ≤ (1_500_000_100 - 100) + 1_000_000_000)
        × (1_500_000_100 - 100 < (n + 1) * 1_000_000_000))
rate_limit_refuses_example =
    rate_limit_refuses refusing (pos 60) true hello (request_with "X" "") 0 1 (pos 60)
      record { allowed = false; remaining = pos 0; reset_at = 1_500_000_100 } refl refl

cors_headers_grant_example :
    let w = cors_headers "https://a.example, https://b.example" "https://b.example" blank in
    (w.headers "Access-Control-Allow-Origin"
      ≡ granted "https://a.example, https://b.example" "https://b.example")
    × (w.headers "Vary" ≡ (
        if is_listed "https://b.example" (split b',' "https://a.example, https://b.example")
        then some "Origin"
        else none))
cors_headers_grant_example =
    cors_headers_grant "https://a.example, https://b.example" "https://b.example"
