-- ===== src/Handlers/Auth.antt =====
-- api/internal/handler/auth.go: registering, verifying and reissuing API keys. The handlers work on
-- the interfaces of the store and of the email sender; the log is left out. Decoding of the request
-- body is done: `none` is a body that does not decode. Parameters are `mail.ParseAddress`, the
-- random bytes, and the digest of SHA-256.
pub mod Register
pub mod Verify
pub mod Reissue
pub mod Uniform
pub mod Lockout
pub mod Journey
use Prim.Native.Char.{Char, code}
use Prim.Native.String
use zaas.Prelude.{
  ℕ, ◌+◌, String, Bool, true, false, not, ◌&&◌, ◌||◌, List, [], ◌∷◌, Option, none, some, ltb, ◌==◌,
  str_eq, if◌then◌else◌,
}
use zaas.Prelude.Int.{pos}
use zaas.Prelude.Text.{◌^^◌, len}
use zaas.Http.{Request, Response, Json, text, object, set_header, write_header, encode, Handler}
use zaas.Store.{
  TokenType, token_type_registration, token_type_reissue, Client, Token, not_found, already_exists,
  failure, StoreError, Outcome, ok, err, ClientStore, TokenStore,
}
use zaas.Service.Keys.{generate_api_key, generate_token, hash_key, key_prefix}
use zaas.Handlers.Respond.{write_error}

-- `email.Sender`: whether the message was sent, and what it did to the world.
pub record Sender (S : Type 0) : Type 0 where
  pub send_verification : String → String → S → Bool × S
  pub send_reissue : String → String → S → Bool × S

-- The fields of `Server`, and the parts of the standard library that its handlers call.
pub record Server (S : Type 0) : Type 0 where
  pub store : Option (ClientStore S)
  pub tokens : TokenStore S
  pub email : Option (Sender S)
  pub base_url : String
  pub parse_address : String → Option String
  pub rand_read : ℕ → S → List ℕ × S
  pub sha256_hex : String → String

abbrev pub max_email_length : ℕ
max_email_length = 254

-- CR, LF, "<" or ">"
abbrev pub is_forbidden : ℕ → Bool
is_forbidden c = c == 13 || c == 10 || c == b'<' || c == b'>'

-- `strings.ContainsAny(raw, "\r\n<>")`
unfoldable pub contains_forbidden : String → Bool
contains_forbidden String.[] = false
contains_forbidden (String.◌∷◌ c s) = is_forbidden (code c) || contains_forbidden s

unfoldable pub validate_email : (String → Option String) → String → Option String
unfolding contains_forbidden
validate_email parse_address raw =
    if ltb max_email_length (len raw)
    then none
    else (if contains_forbidden raw then none else parse_address raw)

abbrev pub write_accepted : Response → Response
write_accepted w =
    encode
      (object
        (("message", text "If this email is eligible, a verification link has been sent.") ∷ []))
      (write_header 202 (set_header "Content-Type" "application/json" w))

abbrev pub no_database : Request → Response → Response
no_database r w =
    write_error w r 503 "INTERNAL_ERROR" "Auth endpoints require database configuration" (pos 0)

abbrev pub bad_request : Request → Response → String → Response
bad_request r w detail = write_error w r 400 "INVALID_PARAM" detail (pos 0)

abbrev pub server_error : Request → Response → String → Response
server_error r w detail = write_error w r 500 "INTERNAL_ERROR" detail (pos 0)

-- 24 hours
abbrev pub token_ttl : ℕ
token_ttl = 86_400_000_000_000

pub record RegisterRequest : Type 0 where
  pub email : String
  pub display_name : String

pub record VerifyRequest : Type 0 where
  pub token : String
  pub token_type : String

pub record ReissueRequest : Type 0 where
  pub email : String

-- The link in an email.
abbrev pub verify_url : String → String → TokenType → String
verify_url base_url token token_type =
    base_url ^^ "/verify?token=" ^^ token ^^ "&type=" ^^ token_type

-- `existing != nil`, with the error other than "not found" handled before.
abbrev pub existing : Outcome (Option Client) → Option Client
existing (ok c) = c
existing (err _) = none

-- `err != nil && !errors.Is(err, store.ErrNotFound)`
abbrev pub is_failure : Outcome (Option Client) → Bool
is_failure (ok _) = false
is_failure (err not_found) = false
is_failure (err _) = true

abbrev pub is_set : Option ℕ → Bool
is_set none = false
is_set (some _) = true

-- `existing != nil && existing.VerifiedAt != nil && existing.RevokedAt == nil`
abbrev pub is_active : Option Client → Bool
is_active none = false
is_active (some c) = is_set c.verified_at && not (is_set c.revoked_at)

-- `existing != nil && existing.VerifiedAt != nil`
abbrev pub is_verified : Option Client → Bool
is_verified none = false
is_verified (some c) = is_set c.verified_at

module _ {S : Type 0} (srv : Server S) where
  -- The world after the email was tried; a failure is only logged.
  abbrev pub mail : (Sender S → S → Bool × S) → S → S
  mail send s = elim srv.email [ none ↦ s | some sender ↦ (send sender s).1 ]
