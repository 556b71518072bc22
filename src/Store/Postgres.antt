-- ===== src/Store/Postgres.antt =====
-- api/internal/store/postgres.go over the tables of store/migrations/001_initial_schema.sql. A table is
-- the list of its rows; an SQL statement is what it does to that list. `now()` is the clock of the
-- database. Query number n fails exactly where `fails n` says so, and then changes nothing; a
-- generated id is `ids n`. These two stand for what the database and the network may do.
pub mod Rows
pub mod Clients
pub mod Tokens
pub mod History
mod Tests
use zaas.Prelude.{
  ℕ, ◌+◌, String, Bool, true, false, ◌&&◌, ◌||◌, List, [], ◌∷◌, ◌++◌, Option, none, some, ltb,
  str_eq, length, map, if◌then◌else◌, ◌==◌,
}
use zaas.Prelude.Int.{pos}
use zaas.Store.{
  TokenType, Client, Token, not_found, already_exists, failure, Outcome, ok, err, ClientStore,
  TokenStore,
}

pub record Db : Type 0 where
  pub clients : List Client
  pub tokens : List Token
  pub clock : ℕ
  pub queries : ℕ
  pub fails : ℕ → Bool
  pub ids : ℕ → String

abbrev pub next_query : Db → Db
next_query db = record db { queries = db.queries + 1 }

abbrev pub is_fault : Db → Bool
is_fault db = db.fails db.queries

abbrev pub is_null : Option ℕ → Bool
is_null none = true
is_null (some _) = false

-- The first row that passes the test, as `QueryRow` takes it.
unfoldable pub first_row {ℓ} : {A : Type ℓ} → (A → Bool) → List A → Option A
first_row p [] = none
first_row p (x ∷ xs) = if p x then some x else first_row p xs

-- `UPDATE t SET f WHERE p`
unfoldable pub update_rows {ℓ} : {A : Type ℓ} → (A → Bool) → (A → A) → List A → List A
update_rows p f [] = []
update_rows p f (x ∷ xs) = (if p x then f x else x) ∷ update_rows p f xs

-- `tag.RowsAffected()`
unfoldable pub rows_affected {ℓ} : {A : Type ℓ} → (A → Bool) → List A → ℕ
rows_affected p [] = 0
rows_affected p (x ∷ xs) = if p x then rows_affected p xs + 1 else rows_affected p xs

abbrev pub has_email : String → Client → Bool
has_email email c = str_eq c.email email

-- A row that violates a unique constraint of `clients`: the primary key or the email.
abbrev pub collides : String → String → Client → Bool
collides id email c = str_eq c.id id || str_eq c.email email

-- A new row, with the defaults of the table.
abbrev pub new_client : Db → String → String → Client
new_client db email display_name = record {
  id = db.ids db.queries;
  email = email;
  display_name = display_name;
  api_key_hash = "";
  api_key_prefix = "";
  rate_limit_rpm = pos 600;
  created_at = db.clock;
  verified_at = none;
  revoked_at = none;
}

abbrev pub is_some {ℓ} : {A : Type ℓ} → Option A → Bool
is_some none = false
is_some (some _) = true

-- `INSERT`; a unique violation is `ErrAlreadyExists`
unfoldable pub create_client : String → String → Db → Outcome (Unit {0}) × Db
unfolding first_row
create_client email display_name db =
    if is_fault db
    then (err failure, next_query db)
    else (if is_some (first_row (collides (db.ids db.queries) email) db.clients)
        then (err already_exists, next_query db)
        else (
          ok tt,
          record db {
            clients = db.clients ++ new_client db email display_name ∷ [];
            queries = db.queries + 1;
          },
        ))

-- `scanClient`, on the rows that the query selects
unfoldable pub scan_client : (Client → Bool) → Db → Outcome (Option Client) × Db
unfolding first_row
scan_client p db =
    if is_fault db then (err failure, next_query db) else elim (first_row p db.clients) [
      | none ↦ (err not_found, next_query db)
      | some c ↦ (ok (some c), next_query db)
    ]

unfoldable pub get_client_by_email : String → Db → Outcome (Option Client) × Db
unfolding scan_client
get_client_by_email email = scan_client (has_email email)

abbrev pub has_key_hash : String → Client → Bool
has_key_hash hash c = str_eq c.api_key_hash hash

unfoldable pub get_client_by_api_key_hash : String → Db → Outcome (Option Client) × Db
unfolding scan_client
get_client_by_api_key_hash hash = scan_client (has_key_hash hash)

-- An `UPDATE clients`, which reports `ErrNotFound` where it affects no row.
unfoldable pub update_clients : (Client → Bool) → (Client → Client) → Db → Outcome (Unit {0}) × Db
unfolding update_rows rows_affected
update_clients p f db =
    if is_fault db
    then (err failure, next_query db)
    else (let db' = record db { clients = update_rows p f db.clients; queries = db.queries + 1 } in
        (if rows_affected p db.clients == 0 then (err not_found, db') else (ok tt, db')))

-- `WHERE email = $1 AND verified_at IS NULL`
abbrev pub is_unverified : String → Client → Bool
is_unverified email c = has_email email c && is_null c.verified_at

abbrev pub set_verified : ℕ → String → String → Client → Client
set_verified now hash prefix c = record c {
  api_key_hash = hash;
  api_key_prefix = prefix;
  verified_at = some now;
}

unfoldable pub mark_client_verified : String → String → String → Db → Outcome (Unit {0}) × Db
unfolding update_clients
mark_client_verified email hash prefix db =
    update_clients (is_unverified email) (set_verified db.clock hash prefix) db

-- `WHERE email = $1 AND revoked_at IS NULL`
abbrev pub is_unrevoked : String → Client → Bool
is_unrevoked email c = has_email email c && is_null c.revoked_at

abbrev pub set_revoked : ℕ → Client → Client
set_revoked now c = record c { revoked_at = some now }

unfoldable pub revoke_client : String → Db → Outcome (Unit {0}) × Db
unfolding update_clients
revoke_client email db = update_clients (is_unrevoked email) (set_revoked db.clock) db

abbrev pub has_token_id : String → Token → Bool
has_token_id id t = str_eq t.id id

abbrev pub new_token : Db → String → String → TokenType → ℕ → Token
new_token db email token_hash token_type expires_at = record {
  id = db.ids db.queries;
  email = email;
  token_hash = token_hash;
  token_type = token_type;
  created_at = db.clock;
  expires_at = expires_at;
  used_at = none;
}

-- `INSERT`; a collision of the generated id is an error like any other here.
unfoldable pub create_token : String → String → TokenType → ℕ → Db → Outcome (Unit {0}) × Db
unfolding first_row
create_token email token_hash token_type expires_at db =
    if is_fault db || is_some (first_row (has_token_id (db.ids db.queries)) db.tokens)
    then (err failure, next_query db)
    else (
      ok tt,
      record db {
        tokens = db.tokens ++ new_token db email token_hash token_type expires_at ∷ [];
        queries = db.queries + 1;
      },
    )

-- `WHERE token_hash = $1 AND type = $2 AND used_at IS NULL AND expires_at > now()`
abbrev pub is_open : String → TokenType → ℕ → Token → Bool
is_open token_hash token_type now t =
    str_eq t.token_hash token_hash
    && str_eq t.token_type token_type
    && is_null t.used_at
    && ltb now t.expires_at

abbrev pub set_used : ℕ → Token → Token
set_used now t = record t { used_at = some now }

-- `UPDATE … RETURNING`, of which the first row is scanned
unfoldable pub consume_token : String → TokenType → Db → Outcome Token × Db
unfolding first_row update_rows
consume_token token_hash token_type db =
    if is_fault db
    then (err failure, next_query db)
    else elim (first_row (is_open token_hash token_type db.clock) db.tokens) [
      | none ↦ (err not_found, next_query db)
      | some t ↦ (
        ok (set_used db.clock t),
        record db {
          tokens =
              update_rows (is_open token_hash token_type db.clock) (set_used db.clock) db.tokens;
          queries = db.queries + 1;
        },
      )
    ]

-- `PostgresStore` implements both interfaces.
abbrev pub postgres_clients : ClientStore Db
postgres_clients = record {
  create_client = create_client;
  get_client_by_email = get_client_by_email;
  get_client_by_api_key_hash = get_client_by_api_key_hash;
  mark_client_verified = mark_client_verified;
  revoke_client = revoke_client;
}

abbrev pub postgres_tokens : TokenStore Db
postgres_tokens = record { create_token = create_token; consume_token = consume_token }
