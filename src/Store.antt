-- ===== src/Store.antt =====
-- api/internal/store/store.go: the records of the two tables and the interfaces to them.
-- A `*time.Time` is an `Option ℕ`. A method is a function on the state `S` of the world.
pub mod Postgres
use zaas.Prelude.{ℕ, String, Option}
use zaas.Prelude.Int.{ℤ}

-- `TokenType` is a string type; these are its named values.
abbrev pub TokenType : Type 0
TokenType = String

abbrev pub token_type_registration : TokenType
token_type_registration = "registration"

abbrev pub token_type_reissue : TokenType
token_type_reissue = "reissue"

pub record Client : Type 0 where
  pub id : String
  pub email : String
  pub display_name : String
  pub api_key_hash : String
  pub api_key_prefix : String
  pub rate_limit_rpm : ℤ
  pub created_at : ℕ
  pub verified_at : Option ℕ
  pub revoked_at : Option ℕ

pub record Token : Type 0 where
  pub id : String
  pub email : String
  pub token_hash : String
  pub token_type : TokenType
  pub created_at : ℕ
  pub expires_at : ℕ
  pub used_at : Option ℕ

-- `ErrNotFound`, `ErrAlreadyExists`, and any other error.
pub data StoreError : Type 0 where
  not_found already_exists failure : StoreError

-- `(T, error)`, or an `error` alone at `T = Unit`.
pub data Outcome (A : Type 0) : Type 0 where
  ok : A → Outcome A
  err : StoreError → Outcome A

-- A method that returns `*Client` may return nil with no error: `ok none`.
pub record ClientStore (S : Type 0) : Type 0 where
  pub create_client : String → String → S → Outcome (Unit {0}) × S
  pub get_client_by_email : String → S → Outcome (Option Client) × S
  pub get_client_by_api_key_hash : String → S → Outcome (Option Client) × S
  pub mark_client_verified : String → String → String → S → Outcome (Unit {0}) × S
  pub revoke_client : String → S → Outcome (Unit {0}) × S

pub record TokenStore (S : Type 0) : Type 0 where
  pub create_token : String → String → TokenType → ℕ → S → Outcome (Unit {0}) × S
  pub consume_token : String → TokenType → S → Outcome Token × S
