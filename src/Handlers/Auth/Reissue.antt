-- ===== src/Handlers/Auth/Reissue.antt =====
-- `AuthReissue` of api/internal/handler/auth.go.
use zaas.Prelude.{◌+◌, String, Option, none, some, if◌then◌else◌}
use zaas.Http.{Request, Handler}
use zaas.Store.{token_type_reissue, ok, err}
use zaas.Service.Keys.{generate_token, hash_key}
use zaas.Handlers.Auth.{
  Server, validate_email, write_accepted, no_database, bad_request, token_ttl, ReissueRequest,
  verify_url, existing, is_failure, is_verified, mail,
}

module _ {S : Type 0} (srv : Server S) where
  -- The state that `AuthReissue` leaves where it sends a token.
  unfoldable pub reissue_token : String → Request → S → S
  unfolding generate_token
  reissue_token email_addr r s =
      let (seed, s₁) = srv.rand_read 32 s in
      let token = generate_token seed in
      let (created, s₂) =
        srv.tokens.create_token email_addr (hash_key srv.sha256_hex token) token_type_reissue
          (r.clock + token_ttl) s₁ in
      elim created [
        | err _ ↦ s₂
        | ok _ ↦
            mail srv
              (λ sender. sender.send_reissue email_addr (verify_url srv.base_url token "reissue"))
              s₂
      ]

  unfoldable pub auth_reissue : Option ReissueRequest → Handler S
  unfolding validate_email reissue_token
  auth_reissue body r w s = elim srv.store [
    | none ↦ (no_database r w, s)
    | some store ↦ elim body [
      | none ↦ (bad_request r w "Invalid request body", s)
      | some req ↦ elim (validate_email srv.parse_address req.email) [
        | none ↦ (bad_request r w "Invalid email address", s)
        | some email_addr ↦
            let (found, s₁) = store.get_client_by_email email_addr s in
            if is_failure found
            then (write_accepted w, s₁)
            else (if is_verified (existing found)
                then (write_accepted w, reissue_token email_addr r s₁)
                else (write_accepted w, s₁))
      ]
    ]
  ]
