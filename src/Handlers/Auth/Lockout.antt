-- ===== src/Handlers/Auth/Lockout.antt =====
-- `AuthVerify` for a reissue over PostgreSQL, where `MarkClientVerified` updates only rows with
-- `verified_at IS NULL`.
use zaas.Prelude.{ℕ, ◌≡◌, ◌≢◌, refl, String, none, some, inl, inr, ◌⊎◌, arith, if_intro}
use zaas.Http.{Request, Response}
use zaas.Store.{Token, token_type_reissue, Outcome, ok, err, StoreError}
use zaas.Store.Postgres.{
  Db, is_fault, first_row, is_unverified, set_verified, is_unrevoked, set_revoked,
  mark_client_verified, revoke_client, postgres_clients,
}
use zaas.Store.Postgres.Rows.{first_row_still_none}
use zaas.Service.Keys.{generate_api_key, hash_key, key_prefix}
use zaas.Store.Postgres.Clients.{update_clients-clients, mark_verified_again, revoke_client_all}
use zaas.Handlers.Auth.{Server, server_error}
use zaas.Handlers.Auth.Verify.{issue_key, verify_email, auth_verify}

Outcome-cases : (o : Outcome (Unit {0})) → (o ≡ ok tt) ⊎ ((x : StoreError) × (o ≡ err x))
Outcome-cases (ok tt) = inl refl
Outcome-cases (err x) = inr (x, refl)

-- Every row of the email is verified.
abbrev pub AllVerified : String → Db → Type 0
AllVerified email db = first_row (is_unverified email) db.clients ≡ none

module _ (srv : Server Db) where
  revoke-AllVerified :
      (email : String) (db : Db)
      → AllVerified email db
      → AllVerified email (revoke_client email db).1
  unfolding revoke_client
  revoke-AllVerified email db h =
      rw (update_clients-clients (is_unrevoked email) (set_revoked db.clock) db) (
        if_intro (λ rows. first_row (is_unverified email) rows ≡ none) (is_fault db) h
          (first_row_still_none (is_unverified email) (is_unrevoked email) (set_revoked db.clock)
            db.clients (λ c. ground arith) h))

  issue_key-fails :
      (ty email : String) (r : Request) (w : Response) (db : Db)
      → ((n : ℕ) (d : Db) → (srv.rand_read n d).1.clients ≡ d.clients)
      → AllVerified email db
      → (issue_key srv postgres_clients ty email r w db).0 ≡ server_error r w "Verification failed"
  unfolding issue_key
  issue_key-fails ty email r w db keeps h =
      let key = generate_api_key (srv.rand_read 16 db).0 in
      let still : AllVerified email (srv.rand_read 16 db).1 = rw (keeps 16 db) h in
      ground (
        arith,
        mark_verified_again email (hash_key srv.sha256_hex key) (key_prefix key)
            (srv.rand_read 16 db).1 still,
      )

  -- The new key leaves every row as revoked as it was.
  issue_key-revoked :
      (ty email : String) (r : Request) (w : Response) (db : Db)
      → ((n : ℕ) (d : Db) → (srv.rand_read n d).1.clients ≡ d.clients)
      → first_row (is_unrevoked email) db.clients ≡ none
      → first_row (is_unrevoked email) (issue_key srv postgres_clients ty email r w db).1.clients
        ≡ none
  unfolding issue_key mark_client_verified
  issue_key-revoked ty email r w db keeps h =
      let key = generate_api_key (srv.rand_read 16 db).0 in
      let hash = hash_key srv.sha256_hex key in
      let prefix = key_prefix key in
      let db₁ = (srv.rand_read 16 db).1 in
      let still : first_row (is_unrevoked email) db₁.clients ≡ none = rw (keeps 16 db) h in
      let marked : first_row (is_unrevoked email)
            (mark_client_verified email hash prefix db₁).1.clients
          ≡ none =
        rw (update_clients-clients (is_unverified email) (set_verified db₁.clock hash prefix) db₁) (
          if_intro (λ rows. first_row (is_unrevoked email) rows ≡ none) (is_fault db₁) still
            (first_row_still_none (is_unrevoked email) (is_unverified email)
              (set_verified db₁.clock hash prefix) db₁.clients (λ c. ground arith) still)) in
      elim (Outcome-cases (mark_client_verified email hash prefix db₁).0) [
        | inl e ↦ rw (issue_key, e) marked
        | inr (x, e) ↦ rw (issue_key, e) marked
      ]

  -- The two conclusions below, once the token is consumed.
  abbrev LocksOut : String → Response → Request → Db → Response × Db → Type 0
  LocksOut email w r db (answer, db') =
      (answer ≡ server_error r w "Verification failed")
      × ((revoke_client email db).0 ≡ ok tt → first_row (is_unrevoked email) db'.clients ≡ none)

  verify_email-LocksOut :
      (email : String) (r : Request) (w : Response) (db : Db)
      → ((n : ℕ) (d : Db) → (srv.rand_read n d).1.clients ≡ d.clients)
      → AllVerified email db
      → LocksOut email w r db (verify_email srv postgres_clients token_type_reissue email r w db)
  unfolding verify_email
  verify_email-LocksOut email r w db keeps verified =
      elim (Outcome-cases (revoke_client email db).0) [
        | inl e ↦
            let gone = revoke_client_all email db e in
            rw e (
              issue_key-fails token_type_reissue email r w (revoke_client email db).1 keeps
                  (revoke-AllVerified email db verified),
              λ done.
                  issue_key-revoked token_type_reissue email r w (revoke_client email db).1 keeps
                    gone,
            )
        | inr (x, e) ↦
            let failed : (revoke_client email db).0 ≢ ok tt = λ done. cc in rw e (refl, λ done. cc)
      ]

  -- Over PostgreSQL a reissue that gets past its token ends without a key: where every row of the
  -- token's email is verified, the answer is 500, whether or not the revocation goes through.
  pub reissue_fails :
      (token : String) (r : Request) (w : Response) (db : Db) (t : Token)
      → srv.store ≡ some postgres_clients
      → ((n : ℕ) (d : Db) → (srv.rand_read n d).1.clients ≡ d.clients)
      → (srv.tokens.consume_token (hash_key srv.sha256_hex token) token_type_reissue db).0 ≡ ok t
      → AllVerified t.email
          (srv.tokens.consume_token (hash_key srv.sha256_hex token) token_type_reissue db).1
      → (auth_verify srv (some record { token = token; token_type = token_type_reissue }) r w db).0
        ≡ server_error r w "Verification failed"
  unfolding auth_verify
  reissue_fails token r w db t up keeps consumed verified =
      let db₁ =
        (srv.tokens.consume_token (hash_key srv.sha256_hex token) token_type_reissue db).1 in
      rw (auth_verify, up, consumed) (verify_email-LocksOut t.email r w db₁ keeps verified).0

  -- Such a reissue leaves the email with no row that is not revoked, where the revocation goes
  -- through: the old keys are gone and there is no new one.
  pub reissue_locks_out :
      (token : String) (r : Request) (w : Response) (db : Db) (t : Token)
      → srv.store ≡ some postgres_clients
      → ((n : ℕ) (d : Db) → (srv.rand_read n d).1.clients ≡ d.clients)
      → (srv.tokens.consume_token (hash_key srv.sha256_hex token) token_type_reissue db).0 ≡ ok t
      → AllVerified t.email
          (srv.tokens.consume_token (hash_key srv.sha256_hex token) token_type_reissue db).1
      → (revoke_client t.email
          (srv.tokens.consume_token (hash_key srv.sha256_hex token) token_type_reissue db).1).0
        ≡ ok tt
      → first_row
          (is_unrevoked t.email)
          (auth_verify srv
            (some record { token = token; token_type = token_type_reissue })
            r
            w
            db).1.clients
        ≡ none
  unfolding auth_verify
  reissue_locks_out token r w db t up keeps consumed verified revoked =
      let db₁ =
        (srv.tokens.consume_token (hash_key srv.sha256_hex token) token_type_reissue db).1 in
      rw (auth_verify, up, consumed)
        ((verify_email-LocksOut t.email r w db₁ keeps verified).1 revoked)
