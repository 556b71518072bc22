-- ===== src/Handlers/Tests.antt =====
-- Concrete requests at the handlers of api/internal/handler, over tables of PostgreSQL.
use zaas.Prelude.{ℕ, ◌≡◌, ◌≢◌, refl, ap, String, false, List, [], ◌∷◌, Option, none, some}
use zaas.Prelude.Int.{pos}
use zaas.Prelude.Dict.{empty, insert}
use zaas.Prelude.Text.{◌^^◌}
use zaas.Http.{Request, Response, Handler, blank}
use zaas.Store.{Client, Token, token_type_registration, token_type_reissue, ok}
use zaas.Store.Postgres.{
  Db, next_query, first_row, is_unrevoked, set_verified, set_used, consume_token, create_token,
  get_client_by_email, revoke_client, postgres_clients, postgres_tokens,
}
use zaas.Handlers.Respond.{write_error}
use zaas.Handlers.Auth.{Server, RegisterRequest, server_error}
use zaas.Handlers.Auth.Register.{auth_register}
use zaas.Handlers.Auth.Verify.{auth_verify}
use zaas.Handlers.Auth.Reissue.{auth_reissue}
use zaas.Handlers.Auth.Uniform.{auth_reissue_uniform, auth_register_uniform}
use zaas.Handlers.Auth.Lockout.{AllVerified, reissue_fails, reissue_locks_out}

abbrev bytes : List ℕ
bytes = 0 ∷ 1 ∷ 2 ∷ 3 ∷ 4 ∷ 5 ∷ 6 ∷ 7 ∷ 8 ∷ 9 ∷ 10 ∷ 11 ∷ 12 ∷ 13 ∷ 14 ∷ 255 ∷ []

-- A server over the tables, with no email sender.
abbrev server : Server Db
server = record {
  store = some postgres_clients;
  tokens = postgres_tokens;
  email = none;
  base_url = "https://zaas.at";
  parse_address = λ s. some s;
  rand_read = λ _ db. (bytes, db);
  sha256_hex = λ s. "digest of " ^^ s;
}

abbrev db_with : List Client → List Token → Db
db_with clients tokens = record {
  clients = clients;
  tokens = tokens;
  clock = 1000;
  queries = 0;
  fails = λ _. false;
  ids = λ _. "id-0";
}

abbrev waiting : Client
waiting = record {
  id = "id-7";
  email = "a@example.com";
  display_name = "Ann";
  api_key_hash = "";
  api_key_prefix = "";
  rate_limit_rpm = pos 600;
  created_at = 5;
  verified_at = none;
  revoked_at = none;
}

abbrev active : Client
active = set_verified 900 "digest of zaas_old" "zaas_old" waiting

abbrev token_of : String → Token
token_of ty = record {
  id = "id-8";
  email = "a@example.com";
  token_hash = "digest of abc";
  token_type = ty;
  created_at = 5;
  expires_at = 5000;
  used_at = none;
}

-- A new registration, and a reissue for a verified client.
abbrev registering : Db
registering = db_with (waiting ∷ []) (token_of token_type_registration ∷ [])

abbrev reissuing : Db
reissuing = db_with (active ∷ []) (token_of token_type_reissue ∷ [])

abbrev request_with : String → String → Request
request_with name value = record {
  method = "POST";
  path = "/v1/auth/verify";
  query = "";
  body = "";
  headers = insert name value empty;
  remote_addr = "192.0.2.1:4711";
  client = none;
  request_id = "r-1";
  clock = 1000;
}

abbrev plain_request : Request
plain_request = request_with "X" ""

auth_reissue_uniform_example :
    (auth_reissue server
      (some record { email = "a@example.com" })
      plain_request
      blank
      registering).0
    ≡ (auth_reissue server
        (some record { email = "a@example.com" })
        plain_request
        blank
        reissuing).0
auth_reissue_uniform_example =
    auth_reissue_uniform server (some record { email = "a@example.com" }) plain_request blank
      registering reissuing

abbrev registration : Option RegisterRequest
registration = some record { email = "a@example.com"; display_name = "Ann" }

accepted :
    (auth_register server registration plain_request blank registering).0
    ≢ server_error plain_request blank "Registration failed"
unfolding auth_register create_token get_client_by_email write_error
accepted e =
    let q : ◌≡◌ {A = Option ℕ} (some 202) (some 500) = ap (λ (w : Response). w.status) e in cc

accepted_active :
    (auth_register server registration plain_request blank reissuing).0
    ≢ server_error plain_request blank "Registration failed"
unfolding auth_register create_token get_client_by_email write_error
accepted_active e =
    let q : ◌≡◌ {A = Option ℕ} (some 202) (some 500) = ap (λ (w : Response). w.status) e in cc

auth_register_uniform_example :
    (auth_register server registration plain_request blank registering).0
    ≡ (auth_register server registration plain_request blank reissuing).0
auth_register_uniform_example =
    auth_register_uniform server registration plain_request blank registering reissuing accepted
      accepted_active

consumed_reissue :
    (consume_token "digest of abc" token_type_reissue reissuing).0
    ≡ ok (set_used 1000 (token_of token_type_reissue))
unfolding consume_token
consumed_reissue = refl

all_verified :
    AllVerified "a@example.com" (consume_token "digest of abc" token_type_reissue reissuing).1
unfolding consume_token first_row
all_verified = refl

revoked :
    (revoke_client "a@example.com" (consume_token "digest of abc" token_type_reissue reissuing).1).0
    ≡ ok tt
unfolding consume_token revoke_client
revoked = refl

reissue_fails_example :
    (auth_verify server
      (some record { token = "abc"; token_type = token_type_reissue })
      plain_request
      blank
      reissuing).0
    ≡ server_error plain_request blank "Verification failed"
reissue_fails_example =
    reissue_fails server "abc" plain_request blank reissuing
      (set_used 1000 (token_of token_type_reissue)) refl (λ n d. refl) consumed_reissue all_verified

reissue_locks_out_example :
    first_row
      (is_unrevoked "a@example.com")
      (auth_verify server
        (some record { token = "abc"; token_type = token_type_reissue })
        plain_request
        blank
        reissuing).1.clients
    ≡ none
reissue_locks_out_example =
    reissue_locks_out server "abc" plain_request blank reissuing
      (set_used 1000 (token_of token_type_reissue)) refl (λ n d. refl) consumed_reissue all_verified
      revoked

-- The handler behind the middleware, which counts a query.
abbrev next : Handler Db
next r w db = (w, next_query db)

-- The tables after the registration token was consumed.
abbrev after_consume : Db
after_consume =
    record (db_with (waiting ∷ []) (set_used 1000 (token_of token_type_registration) ∷ [])) {
      queries = 1;
    }
