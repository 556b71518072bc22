-- ===== src/Handlers/Auth/Uniform.antt =====
-- The answers of `AuthRegister` and `AuthReissue` from two states of the world.
use zaas.Prelude.{
  ◌≡◌, ◌≢◌, ◌⊎◌, refl, inl, inr, String, ◌||◌, Option, arith, ltb, ◌==◌, Bool-cases, Option-cases,
}
use zaas.Prelude.Text.{len}
use zaas.Http.{Request, Response}
use zaas.Store.{ClientStore}
use zaas.Handlers.Auth.{
  Server, validate_email, write_accepted, server_error, RegisterRequest, ReissueRequest, existing,
  is_failure, is_active,
}
use zaas.Handlers.Auth.Register.{register_token, register_email, auth_register}
use zaas.Handlers.Auth.Reissue.{auth_reissue}

module _ {S : Type 0} (srv : Server S) where
  -- The answer to a reissue request is a function of the request and the configuration alone:
  -- whether the email is known or verified, and whether the database or the email failed, does not
  -- show.
  pub auth_reissue_uniform :
      (body : Option ReissueRequest) (r : Request) (w : Response) (s s' : S)
      → (auth_reissue srv body r w s).0 ≡ (auth_reissue srv body r w s').0
  unfolding auth_reissue
  auth_reissue_uniform body r w s s' = ground arith

  -- A registration has two answers for an email and a name that are in order: "accepted", and that
  -- the registration failed.
  register_token-answer :
      (email : String) (r : Request) (w : Response) (s : S)
      → ((register_token srv email r w s).0 ≡ write_accepted w)
        ⊎ ((register_token srv email r w s).0 ≡ server_error r w "Registration failed")
  unfolding register_token
  register_token-answer email r w s = ground arith

  register_email-answer :
      (store : ClientStore S) (email name : String) (r : Request) (w : Response) (s : S)
      → ((register_email srv store email name r w s).0 ≡ write_accepted w)
        ⊎ ((register_email srv store email name r w s).0 ≡ server_error r w "Registration failed")
  unfolding register_email
  register_email-answer store email name r w s =
      elim (Bool-cases (is_failure (store.get_client_by_email email s).0)) [
        | inl failed ↦ rw failed (inr refl)
        | inr answered ↦
            elim (Bool-cases (is_active (existing (store.get_client_by_email email s).0))) [
              | inl active ↦ rw (answered, active) (inl refl)
              | inr inactive ↦
                  rw (answered, inactive)
                    (ground (
                      arith,
                      register_token-answer email r w (store.get_client_by_email email s).1,
                      register_token-answer email r w
                          (store.create_client email name (store.get_client_by_email email s).1).1,
                    ))
            ]
      ]

  same_answer :
      (store : ClientStore S) (email name : String) (r : Request) (w : Response) (s s' : S)
      → (register_email srv store email name r w s).0 ≢ server_error r w "Registration failed"
      → (register_email srv store email name r w s').0 ≢ server_error r w "Registration failed"
      → (register_email srv store email name r w s).0
        ≡ (register_email srv store email name r w s').0
  same_answer store email name r w s s' fine fine' = ground (
    arith,
    register_email-answer store email name r w s,
    register_email-answer store email name r w s',
  )

  -- Two registrations that do not fail get the same answer, whatever the state of the database: it
  -- does not show whether the email is unknown, waiting to be verified, or registered already.
  pub auth_register_uniform :
      (body : Option RegisterRequest) (r : Request) (w : Response) (s s' : S)
      → (auth_register srv body r w s).0 ≢ server_error r w "Registration failed"
      → (auth_register srv body r w s').0 ≢ server_error r w "Registration failed"
      → (auth_register srv body r w s).0 ≡ (auth_register srv body r w s').0
  unfolding auth_register
  auth_register_uniform body r w s s' fine fine' = elim (Option-cases srv.store) [
    | inl missing ↦ rw missing refl
    | inr (store, up) ↦ elim (Option-cases body) [
      | inl bad ↦ rw (auth_register, up, bad) refl
      | inr (req, good) ↦ elim (Option-cases (validate_email srv.parse_address req.email)) [
        | inl invalid ↦ rw (auth_register, up, good, invalid) refl
        | inr (email, valid) ↦
            elim (Bool-cases (len req.display_name == 0 || ltb 100 (len req.display_name))) [
              | inl long ↦ rw (auth_register, up, good, valid, long) refl
              | inr short ↦
                  let there = rw (auth_register, up, good, valid, short) at fine in
                  let there' = rw (auth_register, up, good, valid, short) at fine' in
                  rw (auth_register, up, good, valid, short)
                    (same_answer store email req.display_name r w s s' there there')
            ]
      ]
    ]
  ]
