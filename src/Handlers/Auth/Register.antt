-- ===== src/Handlers/Auth/Register.antt =====
-- `AuthRegister` of api/internal/handler/auth.go.
use zaas.Prelude.{◌+◌, String, ◌||◌, Option, none, some, ltb, ◌==◌, if◌then◌else◌}
use zaas.Prelude.Text.{len}
use zaas.Http.{Handler}
use zaas.Store.{token_type_registration, ok, err, ClientStore}
use zaas.Service.Keys.{generate_token, hash_key}
use zaas.Handlers.Auth.{
  Server, validate_email, write_accepted, no_database, bad_request, server_error, token_ttl,
  RegisterRequest, verify_url, existing, is_failure, is_active, mail,
}

module _ {S : Type 0} (srv : Server S) where
  -- The end of `AuthRegister`: the token and its email.
  unfoldable pub register_token : String → Handler S
  unfolding generate_token
  register_token email_addr r w s =
      let (seed, s₁) = srv.rand_read 32 s in
      let token = generate_token seed in
      let (created, s₂) =
        srv.tokens.create_token email_addr (hash_key srv.sha256_hex token) token_type_registration
          (r.clock + token_ttl) s₁ in
      elim created [
        | err _ ↦ (server_error r w "Registration failed", s₂)
        | ok _ ↦ (
          write_accepted w,
          mail srv
              (λ sender.
                sender.send_verification email_addr (verify_url srv.base_url token "registration"))
              s₂,
        )
      ]

  -- `AuthRegister` from the look-up of the email on.
  unfoldable pub register_email : ClientStore S → String → String → Handler S
  unfolding register_token
  register_email store email_addr display_name r w s =
      let (found, s₁) = store.get_client_by_email email_addr s in
      if is_failure found
      then (server_error r w "Registration failed", s₁)
      else (if is_active (existing found) then (write_accepted w, s₁) else elim (existing found) [
        | some _ ↦ register_token email_addr r w s₁
        | none ↦
            let (created, s₂) = store.create_client email_addr display_name s₁ in
            elim created [
              | err _ ↦ (server_error r w "Registration failed", s₂)
              | ok _ ↦ register_token email_addr r w s₂
            ]
      ])

  unfoldable pub auth_register : Option RegisterRequest → Handler S
  unfolding register_email validate_email
  auth_register body r w s = elim srv.store [
    | none ↦ (no_database r w, s)
    | some store ↦ elim body [
      | none ↦ (bad_request r w "Invalid request body", s)
      | some req ↦ elim (validate_email srv.parse_address req.email) [
        | none ↦ (bad_request r w "Invalid email address", s)
        | some email_addr ↦
            if len req.display_name == 0 || ltb 100 (len req.display_name)
            then (bad_request r w "display_name must be 1-100 characters", s)
            else register_email store email_addr req.display_name r w s
      ]
    ]
  ]
