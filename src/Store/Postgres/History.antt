-- ===== src/Store/Postgres/History.antt =====
-- Whole histories of the database: any sequence of the store's methods, with time in between.
use zaas.Prelude.{
  ℕ, ◌+◌, ◌≡◌, ◌≢◌, refl, String, Bool, ◌||◌, List, [], ◌∷◌, none, inl, inr, arith, str_eq_iff,
  Bool-cases, Option-cases,
}
use zaas.Store.{Client, Token, TokenType, ok}
use zaas.Store.Postgres.{
  Db, is_fault, is_some, has_token_id, new_token, first_row, create_client, get_client_by_email,
  scan_client, update_clients, get_client_by_api_key_hash, mark_client_verified, revoke_client,
  create_token, is_open, set_used, consume_token,
}
use zaas.Store.Postgres.Rows.{first_row-append, first_row_still_none}
use zaas.Store.Postgres.Clients.{IsUnique, create_client-IsUnique, update_clients-IsUnique}
use zaas.Store.Postgres.Tokens.{IsSpent, IsSpent-later, IsSpent-not_ok, consume_token-IsSpent}

-- What may happen to the database.
pub data Step : Type 0 where
  created : String → String → Step
  read_email read_hash : String → Step
  verified : String → String → String → Step
  revoked : String → Step
  issued : String → String → TokenType → ℕ → Step
  redeemed : String → TokenType → Step
  elapsed : ℕ → Step

abbrev pub step : Step → Db → Db
step (created email name) db = (create_client email name db).1
step (read_email email) db = (get_client_by_email email db).1
step (read_hash hash) db = (get_client_by_api_key_hash hash db).1
step (verified email hash prefix) db = (mark_client_verified email hash prefix db).1
step (revoked email) db = (revoke_client email db).1
step (issued email hash ty expires_at) db = (create_token email hash ty expires_at db).1
step (redeemed hash ty) db = (consume_token hash ty db).1
step (elapsed d) db = record db { clock = db.clock + d }

unfoldable pub run : List Step → Db → Db
run [] db = db
run (st ∷ steps) db = run steps (step st db)

scan_client-clients : (p : Client → Bool) (db : Db) → (scan_client p db).1.clients ≡ db.clients
unfolding scan_client
scan_client-clients p db = ground arith

create_token-clients :
    (email h : String) (ty : TokenType) (x : ℕ) (db : Db)
    → (create_token email h ty x db).1.clients ≡ db.clients
unfolding create_token
create_token-clients email h ty x db = ground arith

consume_token-clients :
    (h : String) (ty : TokenType) (db : Db) → (consume_token h ty db).1.clients ≡ db.clients
unfolding consume_token
consume_token-clients h ty db = ground arith

step-IsUnique : (st : Step) (db : Db) → IsUnique db → IsUnique (step st db)
unfolding get_client_by_email get_client_by_api_key_hash mark_client_verified revoke_client
step-IsUnique (created email name) db u = create_client-IsUnique email name db u
step-IsUnique (read_email email) db u = rw (scan_client-clients _ db) u
step-IsUnique (read_hash hash) db u = rw (scan_client-clients _ db) u
step-IsUnique (verified email hash prefix) db u = update_clients-IsUnique _ _ db (λ c. refl) u
step-IsUnique (revoked email) db u = update_clients-IsUnique _ _ db (λ c. refl) u
step-IsUnique (issued email hash ty x) db u = rw (create_token-clients email hash ty x db) u
step-IsUnique (redeemed hash ty) db u = rw (consume_token-clients hash ty db) u
step-IsUnique (elapsed d) db u = u

-- No history of the store's methods ever gives two rows one email.
pub run-IsUnique : (steps : List Step) (db : Db) → IsUnique db → IsUnique (run steps db)
unfolding run
run-IsUnique [] db u = u
run-IsUnique (st ∷ steps) db u = run-IsUnique steps (step st db) (step-IsUnique st db u)

-- No token of the hash is issued.
abbrev pub NotIssued : String → List Step → Type 0
NotIssued h [] = Unit
NotIssued h (issued _ hash _ _ ∷ steps) = (hash ≢ h) × NotIssued h steps
NotIssued h (_ ∷ steps) = NotIssued h steps

scan_client-keeps :
    (p : Client → Bool) (db : Db)
    → ((scan_client p db).1.tokens ≡ db.tokens) × ((scan_client p db).1.clock ≡ db.clock)
unfolding scan_client
scan_client-keeps p db = ground arith

update_clients-keeps :
    (p : Client → Bool) (f : Client → Client) (db : Db)
    → ((update_clients p f db).1.tokens ≡ db.tokens) × ((update_clients p f db).1.clock ≡ db.clock)
unfolding update_clients
update_clients-keeps p f db = ground arith

consume_token-clock :
    (h : String) (ty : TokenType) (db : Db) → (consume_token h ty db).1.clock ≡ db.clock
unfolding consume_token
consume_token-clock h ty db = ground arith

create_client-keeps :
    (email name : String) (db : Db)
    → ((create_client email name db).1.tokens ≡ db.tokens)
      × ((create_client email name db).1.clock ≡ db.clock)
unfolding create_client
create_client-keeps email name db = ground arith

module _ (h : String) (ty : TokenType) where
  IsSpent-kept :
      (db db' : Db)
      → (db'.tokens ≡ db.tokens) × (db'.clock ≡ db.clock)
      → IsSpent h ty db.clock db
      → IsSpent h ty db'.clock db'
  IsSpent-kept db db' same spent = rw (same.0, same.1) spent

  other_hash :
      (t : Token) (now : ℕ) → t.token_hash ≢ h → first_row (is_open h ty now) (t ∷ []) ≡ none
  unfolding first_row
  other_hash t now ne = ground (arith, str_eq_iff t.token_hash h)

  create_token-IsSpent :
      (email hash : String) (ty' : TokenType) (x : ℕ) (db : Db)
      → hash ≢ h
      → IsSpent h ty db.clock db
      → IsSpent h ty (create_token email hash ty' x db).1.clock (create_token email hash ty' x db).1
  unfolding create_token
  create_token-IsSpent email hash ty' x db ne spent =
      elim (Bool-cases
        (is_fault db || is_some (first_row (has_token_id (db.ids db.queries)) db.tokens))) [
          | inl refused ↦ rw refused spent
          | inr fine ↦ rw fine (
              rw (first_row-append, spent) (other_hash (new_token db email hash ty' x) db.clock ne))
        ]

  consume_token-keeps_IsSpent :
      (hash : String) (ty' : TokenType) (db : Db)
      → IsSpent h ty db.clock db
      → IsSpent h ty (consume_token hash ty' db).1.clock (consume_token hash ty' db).1
  unfolding consume_token
  consume_token-keeps_IsSpent hash ty' db spent = elim (Bool-cases (is_fault db)) [
    | inl fault ↦ rw fault spent
    | inr up ↦ elim (Option-cases (first_row (is_open hash ty' db.clock) db.tokens)) [
      | inl gone ↦ rw (up, gone) spent
      | inr (u, found) ↦
          rw (up, found)
            (first_row_still_none (is_open h ty db.clock) (is_open hash ty' db.clock)
              (set_used db.clock) db.tokens (λ t e. ground arith) spent)
    ]
  ]

  step-IsSpent :
      (st : Step) (db : Db)
      → NotIssued h (st ∷ [])
      → IsSpent h ty db.clock db
      → IsSpent h ty (step st db).clock (step st db)
  unfolding get_client_by_email get_client_by_api_key_hash mark_client_verified revoke_client
  step-IsSpent (created email name) db n spent =
      IsSpent-kept db (step (created email name) db) (create_client-keeps email name db) spent
  step-IsSpent (read_email email) db n spent =
      IsSpent-kept db (step (read_email email) db) (scan_client-keeps _ db) spent
  step-IsSpent (read_hash hash) db n spent =
      IsSpent-kept db (step (read_hash hash) db) (scan_client-keeps _ db) spent
  step-IsSpent (verified email hash prefix) db n spent =
      IsSpent-kept db (step (verified email hash prefix) db) (update_clients-keeps _ _ db) spent
  step-IsSpent (revoked email) db n spent =
      IsSpent-kept db (step (revoked email) db) (update_clients-keeps _ _ db) spent
  step-IsSpent (issued email hash ty' x) db n spent =
      create_token-IsSpent email hash ty' x db n.0 spent
  step-IsSpent (redeemed hash ty') db n spent = consume_token-keeps_IsSpent hash ty' db spent
  step-IsSpent (elapsed d) db n spent =
      IsSpent-later h ty db.clock (db.clock + d) db (omega arith) spent

  head_NotIssued :
      (st : Step) (steps : List Step) → NotIssued h (st ∷ steps) → NotIssued h (st ∷ [])
  head_NotIssued (issued _ _ _ _) steps n = (n.0, tt)
  head_NotIssued _ steps n = tt

  tail_NotIssued : (st : Step) (steps : List Step) → NotIssued h (st ∷ steps) → NotIssued h steps
  tail_NotIssued (issued _ _ _ _) steps n = n.1
  tail_NotIssued _ steps n = n

  run-IsSpent :
      (steps : List Step) (db : Db)
      → NotIssued h steps
      → IsSpent h ty db.clock db
      → IsSpent h ty (run steps db).clock (run steps db)
  unfolding run
  run-IsSpent [] db n spent = spent
  run-IsSpent (st ∷ steps) db n spent =
      run-IsSpent steps (step st db) (tail_NotIssued st steps n)
        (step-IsSpent st db (head_NotIssued st steps n) spent)

-- A token is good for once: after `ConsumeToken` has returned a token, it returns none of that hash
-- and type again, whatever methods are called in between and however much later, unless a new token
-- of the same hash is issued.
pub consume_token_once :
    (h : String) (ty : TokenType) (db : Db) (t t' : Token) (steps : List Step)
    → (consume_token h ty db).0 ≡ ok t
    → NotIssued h steps
    → (consume_token h ty (run steps (consume_token h ty db).1)).0 ≢ ok t'
consume_token_once h ty db t t' steps first n =
    IsSpent-not_ok h ty (run steps (consume_token h ty db).1) t' (
      run-IsSpent h ty steps (consume_token h ty db).1 n
        (rw (consume_token-clock h ty db) (consume_token-IsSpent h ty db t first)))
