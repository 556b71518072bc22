-- ===== src/Store/Postgres/Clients.antt =====
-- The table `clients`: one row for an email, and what the methods leave there.
use zaas.Prelude.{
  ◌+◌, ◌≡◌, ◌≢◌, refl, ap, String, Bool, false, [], ◌∷◌, ◌++◌, Option, none, some, inl, inr, arith,
  str_eq_iff, if◌then◌else◌, Bool-cases, Option-cases, if_intro,
}
use zaas.Store.{Client, not_found, Outcome, ok, err}
use zaas.Store.Postgres.{
  Db, next_query, is_fault, first_row, update_rows, has_email, collides, new_client, create_client,
  scan_client, get_client_by_email, has_key_hash, get_client_by_api_key_hash, update_clients,
  is_unverified, set_verified, mark_client_verified, is_unrevoked, set_revoked, revoke_client,
}
use zaas.Store.Postgres.Rows.{
  first_row-append, first_row_cleared, first_row_updated, first_row-none_of, rows_affected-none,
  rows_affected-some, HasUnique, HasUnique-append, HasUnique-update,
}

-- What each statement does where its query goes through.
pub scan_client_found :
    (p : Client → Bool) (db : Db) (c : Client)
    → is_fault db ≡ false
    → first_row p db.clients ≡ some c
    → scan_client p db ≡ (ok (some c), next_query db)
unfolding scan_client
scan_client_found p db c up found = rw (up, found) refl

pub scan_client_missing :
    (p : Client → Bool) (db : Db)
    → is_fault db ≡ false
    → first_row p db.clients ≡ none
    → scan_client p db ≡ (err not_found, next_query db)
unfolding scan_client
scan_client_missing p db up missing = rw (up, missing) refl

pub get_by_email_found :
    (email : String) (db : Db) (c : Client)
    → is_fault db ≡ false
    → first_row (has_email email) db.clients ≡ some c
    → get_client_by_email email db ≡ (ok (some c), next_query db)
unfolding get_client_by_email
get_by_email_found email db c up found = scan_client_found (has_email email) db c up found

pub get_by_email_missing :
    (email : String) (db : Db)
    → is_fault db ≡ false
    → first_row (has_email email) db.clients ≡ none
    → get_client_by_email email db ≡ (err not_found, next_query db)
unfolding get_client_by_email
get_by_email_missing email db up missing = scan_client_missing (has_email email) db up missing

pub get_by_hash_found :
    (hash : String) (db : Db) (c : Client)
    → is_fault db ≡ false
    → first_row (has_key_hash hash) db.clients ≡ some c
    → get_client_by_api_key_hash hash db ≡ (ok (some c), next_query db)
unfolding get_client_by_api_key_hash
get_by_hash_found hash db c up found = scan_client_found (has_key_hash hash) db c up found

abbrev pub inserted : String → String → Db → Db
inserted email display_name db = record db {
  clients = db.clients ++ new_client db email display_name ∷ [];
  queries = db.queries + 1;
}

abbrev pub updated : (Client → Bool) → (Client → Client) → Db → Db
updated p f db = record db { clients = update_rows p f db.clients; queries = db.queries + 1 }

pub update_clients-some :
    (p : Client → Bool) (f : Client → Client) (db : Db) (c : Client)
    → is_fault db ≡ false
    → first_row p db.clients ≡ some c
    → update_clients p f db ≡ (ok tt, updated p f db)
unfolding update_clients
update_clients-some p f db c up found = rw (up, rows_affected-some p db.clients c found) refl

pub update_clients-none :
    (p : Client → Bool) (f : Client → Client) (db : Db)
    → is_fault db ≡ false
    → first_row p db.clients ≡ none
    → update_clients p f db ≡ (err not_found, updated p f db)
unfolding update_clients
update_clients-none p f db up missing = ground (arith, rows_affected-none p db.clients missing)

update_clients-up :
    (p : Client → Bool) (f : Client → Client) (db : Db)
    → (update_clients p f db).0 ≡ ok tt
    → is_fault db ≡ false
unfolding update_clients
update_clients-up p f db done = ground arith

pub create_client_new :
    (email display_name : String) (db : Db)
    → is_fault db ≡ false
    → first_row (collides (db.ids db.queries) email) db.clients ≡ none
    → create_client email display_name db ≡ (ok tt, inserted email display_name db)
unfolding create_client
create_client_new email display_name db up free = rw (up, free) refl

create_client-up :
    (email display_name : String) (db : Db)
    → (create_client email display_name db).0 ≡ ok tt
    → (is_fault db ≡ false) × (first_row (collides (db.ids db.queries) email) db.clients ≡ none)
unfolding create_client
create_client-up email display_name db done = ground arith

-- The constraint `email text UNIQUE`.
abbrev pub IsUnique : Db → Type 0
IsUnique db = HasUnique (λ (c : Client). c.email) db.clients

-- `CreateClient` keeps the emails unique, whatever the answer.
pub create_client-IsUnique :
    (email display_name : String) (db : Db)
    → IsUnique db
    → IsUnique (create_client email display_name db).1
unfolding create_client
create_client-IsUnique email display_name db u = elim (Bool-cases (is_fault db)) [
  | inl fault ↦ rw fault u
  | inr up ↦ elim (Option-cases (first_row (collides (db.ids db.queries) email) db.clients)) [
    | inr (c, e) ↦ rw (up, e) u
    | inl e ↦
        rw (up, e)
          (HasUnique-append (λ c. c.email) db.clients (new_client db email display_name) u
            (first_row-none_of (collides (db.ids db.queries) email) (has_email email) db.clients
              (λ c h. ground arith) e))
  ]
]

pub update_clients-clients :
    (p : Client → Bool) (f : Client → Client) (db : Db)
    → (update_clients p f db).1.clients
      ≡ (if is_fault db then db.clients else update_rows p f db.clients)
unfolding update_clients
update_clients-clients p f db = ground arith

-- So does every update that leaves the emails alone.
pub update_clients-IsUnique :
    (p : Client → Bool) (f : Client → Client) (db : Db)
    → ((c : Client) → (f c).email ≡ c.email)
    → IsUnique db
    → IsUnique (update_clients p f db).1
update_clients-IsUnique p f db same u = rw (update_clients-clients p f db) (
    if_intro (HasUnique (λ c. c.email)) (is_fault db) u
      (HasUnique-update (λ c. c.email) p f db.clients same u))

found_here :
    (email display_name : String) (db : Db)
    → first_row (has_email email) (new_client db email display_name ∷ [])
      ≡ some (new_client db email display_name)
unfolding first_row
found_here email display_name db = ground (arith, str_eq_iff email email)

-- A client that was just created is found by its email, not verified and not revoked, where the
-- query does not fail.
pub create-get_by_email :
    (email display_name : String) (db : Db)
    → (create_client email display_name db).0 ≡ ok tt
    → is_fault (create_client email display_name db).1 ≡ false
    → (get_client_by_email email (create_client email display_name db).1).0
      ≡ ok (some (new_client db email display_name))
create-get_by_email email display_name db created up =
    let (up_before, free) = create_client-up email display_name db created in
    let made = create_client_new email display_name db up_before free in
    let none_before =
      first_row-none_of (collides (db.ids db.queries) email) (has_email email) db.clients
        (λ c h. ground arith) free in
    let up_after : is_fault (inserted email display_name db) ≡ false = rw made at up in
    rw made (
      ap (λ (a : Outcome (Option Client) × Db). a.0)
        (get_by_email_found email (inserted email display_name db)
          (new_client db email display_name) up_after
          (rw (first_row-append, none_before) (found_here email display_name db))))

-- A client that is verified with a key hash which no row has yet is found by that hash, with the
-- new hash, prefix and time, where the two queries do not fail.
pub mark_verified-get_by_hash :
    (email hash prefix : String) (db : Db) (c : Client)
    → first_row (is_unverified email) db.clients ≡ some c
    → first_row (has_key_hash hash) db.clients ≡ none
    → is_fault db ≡ false
    → is_fault (next_query db) ≡ false
    → let (answer, db') = mark_client_verified email hash prefix db in
      (answer ≡ ok tt)
      × ((get_client_by_api_key_hash hash db').0 ≡ ok (some (set_verified db.clock hash prefix c)))
unfolding mark_client_verified
mark_verified-get_by_hash email hash prefix db c found fresh up up' =
    let made =
      update_clients-some (is_unverified email) (set_verified db.clock hash prefix) db c up found in
    rw made (
      refl,
      ap (λ (a : Outcome (Option Client) × Db). a.0)
          (get_by_hash_found hash
            (updated (is_unverified email) (set_verified db.clock hash prefix) db)
            (set_verified db.clock hash prefix c) up'
            (first_row_updated (is_unverified email) (has_key_hash hash)
              (set_verified db.clock hash prefix) db.clients c (λ y. (str_eq_iff hash hash).1 refl)
              fresh found)),
    )

-- Verification is for once: an email all of whose rows are verified stays as it is, revoked or not,
-- and the answer is `ErrNotFound` or an error of the database.
pub mark_verified_again :
    (email hash prefix : String) (db : Db)
    → first_row (is_unverified email) db.clients ≡ none
    → (mark_client_verified email hash prefix db).0 ≢ ok tt
unfolding mark_client_verified
mark_verified_again email hash prefix db none_left =
    ground (arith, rows_affected-none (is_unverified email) db.clients)

-- After a successful revocation no row of the email is left that is not revoked.
pub revoke_client_all :
    (email : String) (db : Db)
    → (revoke_client email db).0 ≡ ok tt
    → first_row (is_unrevoked email) (revoke_client email db).1.clients ≡ none
unfolding revoke_client
revoke_client_all email db done =
    rw
      (
        update_clients-clients (is_unrevoked email) (set_revoked db.clock) db,
        update_clients-up (is_unrevoked email) (set_revoked db.clock) db done,
      )
      (first_row_cleared (is_unrevoked email) (is_unrevoked email) (set_revoked db.clock) db.clients
        (λ c. ground arith))
