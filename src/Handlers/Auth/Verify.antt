-- ===== src/Handlers/Auth/Verify.antt =====
-- `AuthVerify` of api/internal/handler/auth.go.
use zaas.Prelude.{String, not, ◌&&◌, [], ◌∷◌, Option, none, some, str_eq, if◌then◌else◌}
use zaas.Prelude.Text.{◌^^◌}
use zaas.Http.{text, object, set_header, write_header, encode, Handler}
use zaas.Store.{TokenType, token_type_registration, token_type_reissue, ok, err, ClientStore}
use zaas.Service.Keys.{generate_api_key, hash_key, key_prefix}
use zaas.Handlers.Auth.{Server, no_database, bad_request, server_error, VerifyRequest}

module _ {S : Type 0} (srv : Server S) where
  -- The message beside a new key.
  abbrev pub key_message : TokenType → String
  key_message token_type =
      let msg : String = "Store this key safely - it will not be shown again." in
      if str_eq token_type token_type_reissue then "Your old key has been revoked. " ^^ msg else msg

  -- The end of `AuthVerify`: the new key.
  unfoldable pub issue_key : ClientStore S → TokenType → String → Handler S
  unfolding generate_api_key key_prefix
  issue_key store token_type email r w s =
      let (bytes, s₁) = srv.rand_read 16 s in
      let api_key = generate_api_key bytes in
      let (marked, s₂) =
        store.mark_client_verified email (hash_key srv.sha256_hex api_key) (key_prefix api_key)
          s₁ in
      elim marked [
        | err _ ↦ (server_error r w "Verification failed", s₂)
        | ok _ ↦ (
          encode
              (object (("api_key", text api_key) ∷ ("message", text (key_message token_type)) ∷ []))
              (write_header 200 (set_header "Content-Type" "application/json" w)),
          s₂,
        )
      ]

  -- `AuthVerify` after the token was consumed.
  unfoldable pub verify_email : ClientStore S → TokenType → String → Handler S
  unfolding issue_key
  verify_email store token_type email r w s =
      if str_eq token_type token_type_reissue
      then (let (revoked, s₁) = store.revoke_client email s in
          elim revoked [
            | err _ ↦ (server_error r w "Verification failed", s₁)
            | ok _ ↦ issue_key store token_type email r w s₁
          ])
      else issue_key store token_type email r w s

  unfoldable pub auth_verify : Option VerifyRequest → Handler S
  unfolding verify_email
  auth_verify body r w s = elim srv.store [
    | none ↦ (no_database r w, s)
    | some store ↦ elim body [
      | none ↦ (bad_request r w "Invalid request body", s)
      | some req ↦
          if not (str_eq req.token_type token_type_registration)
            && not (str_eq req.token_type token_type_reissue)
          then (bad_request r w "Invalid token type", s)
          else (let (consumed, s₁) =
                srv.tokens.consume_token (hash_key srv.sha256_hex req.token) req.token_type s in
              elim consumed [
                | err _ ↦ (bad_request r w "Token is invalid, expired, or already used", s₁)
                | ok token ↦ verify_email store req.token_type token.email r w s₁
              ])
    ]
  ]
