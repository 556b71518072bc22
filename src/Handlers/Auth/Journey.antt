-- ===== src/Handlers/Auth/Journey.antt =====
-- From the registration token to a request with the new key: `AuthVerify`, then the middleware
-- `Auth`, over the same tables of PostgreSQL.
use zaas.Prelude.{String, [], ◌∷◌}
use zaas.Http.{Response, encode, object, text, write_header, set_header}
use zaas.Store.Postgres.{Db, is_unverified, set_verified}
use zaas.Store.Postgres.Clients.{updated}
use zaas.Service.Keys.{hash_key, key_prefix}
use zaas.Handlers.Auth.{Server}
use zaas.Handlers.Auth.Verify.{key_message}

-- The tables after the key of the email was issued.
abbrev pub with_key : (String → String) → String → String → Db → Db
with_key sha256_hex email key db =
    updated (is_unverified email) (set_verified db.clock (hash_key sha256_hex key) (key_prefix key))
      db

-- The answer that hands out a key.
abbrev pub key_answer : (srv : Server Db) → String → String → Response → Response
key_answer srv ty key w =
    encode (object (("api_key", text key) ∷ ("message", text (key_message srv ty)) ∷ []))
      (write_header 200 (set_header "Content-Type" "application/json" w))
