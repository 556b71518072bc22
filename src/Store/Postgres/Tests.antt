-- ===== src/Store/Postgres/Tests.antt =====
-- Concrete tables for api/internal/store/postgres.go.
use zaas.Prelude.{
  true, zero, suc, ◌≡◌, ◌≢◌, refl, String, false, List, [], ◌∷◌, none, some, str_eq, str_eq_iff,
  arith,
}
use zaas.Prelude.Int.{pos}
use zaas.Store.{Client, Token, token_type_registration, ok}
use zaas.Store.Postgres.{
  is_open, has_key_hash, Db, is_fault, first_row, new_client, create_client, get_client_by_email,
  get_client_by_api_key_hash, is_unverified, set_verified, mark_client_verified, new_token,
  set_used, create_token, consume_token,
}
use zaas.Store.Postgres.Clients.{IsUnique, create-get_by_email, mark_verified-get_by_hash}
use zaas.Store.Postgres.Tokens.{create-consume}
use zaas.Store.Postgres.History.{
  created, verified, issued, elapsed, run, run-IsUnique, consume_token_once,
}

-- The database after `n` queries.
abbrev db_with : List Client → List Token → Db
db_with clients tokens = record {
  clients = clients;
  tokens = tokens;
  clock = 1000;
  queries = 0;
  fails = λ _. false;
  ids = λ n. elim n [ zero ↦ "id-0" | suc _ ↦ "id-1" ];
}

abbrev empty_db : Db
empty_db = db_with [] []

-- A row that waits to be verified, and the same row with its key.
abbrev waiting : Client
waiting = record {
  id = "id-7";
  email = "a@example.com";
  display_name = "Ann";
  api_key_hash = "";
  api_key_prefix = "";
  rate_limit_rpm = pos 600;
  created_at = 5;
  verified_at = none;
  revoked_at = none;
}

abbrev with_hash : Client
with_hash = set_verified 900 "hash" "zaas_012" waiting

abbrev token : Token
token = record {
  id = "id-8";
  email = "a@example.com";
  token_hash = "token-hash";
  token_type = token_type_registration;
  created_at = 5;
  expires_at = 5000;
  used_at = none;
}

one_waiting : first_row (is_unverified "a@example.com") (waiting ∷ []) ≡ some waiting
unfolding first_row
one_waiting = refl

none_waiting : first_row (is_unverified "a@example.com") (with_hash ∷ []) ≡ none
unfolding first_row
none_waiting = refl

redeemed_once :
    (consume_token "token-hash" token_type_registration (db_with [] (token ∷ []))).0
    ≡ ok (set_used 1000 token)
unfolding consume_token
redeemed_once = refl

other_hash : ◌≢◌ {A = String} "other" "token-hash"
other_hash e = let q : str_eq "other" "token-hash" ≡ true = (str_eq_iff _ _).1 e in cc

consume_token_once_example :
    (consume_token "token-hash" token_type_registration (
      run
        (issued "a@example.com" "other" token_type_registration 9000 ∷ elapsed 7 ∷ [])
        (consume_token "token-hash" token_type_registration (db_with [] (token ∷ []))).1)).0
    ≢ ok token
consume_token_once_example =
    consume_token_once "token-hash" token_type_registration (db_with [] (token ∷ []))
      (set_used 1000 token) token
      (issued "a@example.com" "other" token_type_registration 9000 ∷ elapsed 7 ∷ []) redeemed_once
      (other_hash, tt)

issued_first : (create_token "a@example.com" "new" token_type_registration 9000 empty_db).0 ≡ ok tt
unfolding create_token
issued_first = refl

unseen : first_row (is_open "new" token_type_registration 2000) empty_db.tokens ≡ none
unfolding first_row
unseen = refl

create-consume_example :
    (consume_token "new" token_type_registration
      (record (create_token "a@example.com" "new" token_type_registration 9000 empty_db).1 {
        clock = 2000;
      })).0
    ≡ ok (set_used 2000 (new_token empty_db "a@example.com" "new" token_type_registration 9000))
create-consume_example =
    create-consume "a@example.com" "new" token_type_registration 9000 2000 empty_db issued_first
      unseen (omega arith) refl

run-IsUnique_example : IsUnique (
    run
      (created "a@example.com" "Ann"
        ∷ created "a@example.com" "Anna"
        ∷ verified "a@example.com" "hash" "zaas_012"
        ∷ [])
      empty_db)
run-IsUnique_example =
    run-IsUnique
      (created "a@example.com" "Ann"
        ∷ created "a@example.com" "Anna"
        ∷ verified "a@example.com" "hash" "zaas_012"
        ∷ [])
      empty_db tt

made : (create_client "a@example.com" "Ann" empty_db).0 ≡ ok tt
unfolding create_client
made = refl

up_after : is_fault (create_client "a@example.com" "Ann" empty_db).1 ≡ false
unfolding create_client
up_after = refl

create-get_by_email_example :
    (get_client_by_email "a@example.com" (create_client "a@example.com" "Ann" empty_db).1).0
    ≡ ok (some (new_client empty_db "a@example.com" "Ann"))
create-get_by_email_example = create-get_by_email "a@example.com" "Ann" empty_db made up_after

no_hash : first_row (has_key_hash "hash") (waiting ∷ []) ≡ none
unfolding first_row
no_hash = refl

mark_verified-get_by_hash_example :
    ((mark_client_verified "a@example.com" "hash" "zaas_012" (db_with (waiting ∷ []) [])).0 ≡ ok tt)
    × ((get_client_by_api_key_hash "hash"
          (mark_client_verified "a@example.com" "hash" "zaas_012" (db_with (waiting ∷ []) [])).1).0
        ≡ ok (some (set_verified 1000 "hash" "zaas_012" waiting)))
mark_verified-get_by_hash_example =
    mark_verified-get_by_hash "a@example.com" "hash" "zaas_012" (db_with (waiting ∷ []) []) waiting
      one_waiting no_hash refl refl
