-- ===== src/Store/Postgres/Tokens.antt =====
-- The table `verification_tokens`: `CreateToken` and `ConsumeToken`.
use zaas.Prelude.{
  ℕ, ◌+◌, ◌≤◌, ◌<◌, ◌≡◌, ◌≢◌, refl, ap, String, false, [], ◌∷◌, ◌++◌, none, some, inl, inr, arith,
  str_eq_iff, Bool-cases, Option-cases,
}
use zaas.Store.{Token, TokenType, not_found, failure, Outcome, ok, err}
use zaas.Store.Postgres.{
  Db, next_query, is_fault, first_row, update_rows, has_token_id, new_token, create_token, is_open,
  set_used, consume_token,
}
use zaas.Store.Postgres.Rows.{first_row-append, first_row_cleared, first_row-none_of}

-- The token that `ConsumeToken` hands out: it has the hash and the type that were asked for, was
-- unused until now, has not expired, and is marked as used now.
pub record IsRedeemed (token_hash : String) (token_type : TokenType) (now : ℕ) (t : Token)
    : Type 0 where
  pub hash : t.token_hash ≡ token_hash
  pub purpose : t.token_type ≡ token_type
  pub in_time : now < t.expires_at
  pub used : t.used_at ≡ some now

ok-inj : {A : Type 0} (a b : A) → ok a ≡ ok b → b ≡ a
ok-inj a b h = cc

consume_token-inv :
    (h : String) (ty : TokenType) (db : Db) (t : Token)
    → (consume_token h ty db).0 ≡ ok t
    → (u : Token) × (first_row (is_open h ty db.clock) db.tokens ≡ some u)
      × (t ≡ set_used db.clock u)
      × ((consume_token h ty db).1.tokens
          ≡ update_rows (is_open h ty db.clock) (set_used db.clock) db.tokens)
unfolding consume_token
consume_token-inv h ty db t e = elim (Bool-cases (is_fault db)) [
  | inl fault ↦ let bad : err failure ≡ ok t = rw fault at e in cc
  | inr up ↦ elim (Option-cases (first_row (is_open h ty db.clock) db.tokens)) [
    | inl gone ↦ let bad : err not_found ≡ ok t = rw (up, gone) at e in cc
    | inr (u, found) ↦
        let same : ok (set_used db.clock u) ≡ ok t = rw (up, found) at e in
        (u, found, ok-inj _ _ same, rw (up, found) refl)
  ]
]

-- No token of this hash and type can be consumed, at `now` or later.
abbrev pub IsSpent : String → TokenType → ℕ → Db → Type 0
IsSpent h ty now db = first_row (is_open h ty now) db.tokens ≡ none

closed_stays :
    (h : String) (ty : TokenType) (a b : ℕ) (t : Token)
    → a ≤ b
    → is_open h ty a t ≡ false
    → is_open h ty b t ≡ false
closed_stays h ty a b t le e = ground arith

pub IsSpent-later :
    (h : String) (ty : TokenType) (now later : ℕ) (db : Db)
    → now ≤ later
    → IsSpent h ty now db
    → IsSpent h ty later db
IsSpent-later h ty now later db le spent =
    first_row-none_of (is_open h ty now) (is_open h ty later) db.tokens
      (λ t e. closed_stays h ty now later t le e) spent

pub consume_token-IsSpent :
    (h : String) (ty : TokenType) (db : Db) (t : Token)
    → (consume_token h ty db).0 ≡ ok t
    → IsSpent h ty db.clock (consume_token h ty db).1
consume_token-IsSpent h ty db t e =
    let (_, _, _, rows) = consume_token-inv h ty db t e in
    rw rows (
      first_row_cleared (is_open h ty db.clock) (is_open h ty db.clock) (set_used db.clock)
        db.tokens (λ u. ground arith))

pub IsSpent-not_ok :
    (h : String) (ty : TokenType) (db : Db) (t : Token)
    → IsSpent h ty db.clock db
    → (consume_token h ty db).0 ≢ ok t
unfolding consume_token
IsSpent-not_ok h ty db t spent e =
    let (u, found, _, _) = consume_token-inv h ty db t e in cc (spent, found)

abbrev pub consumed : String → TokenType → Db → Db
consumed h ty db = record db {
  tokens = update_rows (is_open h ty db.clock) (set_used db.clock) db.tokens;
  queries = db.queries + 1;
}

pub consume_token_found :
    (h : String) (ty : TokenType) (db : Db) (u : Token)
    → is_fault db ≡ false
    → first_row (is_open h ty db.clock) db.tokens ≡ some u
    → consume_token h ty db ≡ (ok (set_used db.clock u), consumed h ty db)
unfolding consume_token
consume_token_found h ty db u up found = rw (up, found) refl

abbrev pub with_token : String → String → TokenType → ℕ → Db → Db
with_token email h ty expires_at db = record db {
  tokens = db.tokens ++ new_token db email h ty expires_at ∷ [];
  queries = db.queries + 1;
}

pub create_token_new :
    (email h : String) (ty : TokenType) (expires_at : ℕ) (db : Db)
    → is_fault db ≡ false
    → first_row (has_token_id (db.ids db.queries)) db.tokens ≡ none
    → create_token email h ty expires_at db ≡ (ok tt, with_token email h ty expires_at db)
unfolding create_token
create_token_new email h ty expires_at db up free = rw (up, free) refl

create_token-inv :
    (email h : String) (ty : TokenType) (expires_at : ℕ) (db : Db)
    → (create_token email h ty expires_at db).0 ≡ ok tt
    → create_token email h ty expires_at db ≡ (ok tt, with_token email h ty expires_at db)
unfolding create_token
create_token-inv email h ty expires_at db made = ground arith

pub open_again :
    (email h : String) (ty : TokenType) (expires_at later : ℕ) (db : Db)
    → first_row (is_open h ty later) db.tokens ≡ none
    → later < expires_at
    → first_row (is_open h ty later) (with_token email h ty expires_at db).tokens
      ≡ some (new_token db email h ty expires_at)
unfolding first_row
open_again email h ty expires_at later db free in_time =
    rw (first_row-append, free) (ground (arith, str_eq_iff h h, str_eq_iff ty ty))

-- A token that was just created is consumed by its hash and type until it expires, if no open token
-- has that hash and type already, and the second query does not fail.
pub create-consume :
    (email h : String) (ty : TokenType) (expires_at later : ℕ) (db : Db)
    → (create_token email h ty expires_at db).0 ≡ ok tt
    → first_row (is_open h ty later) db.tokens ≡ none
    → later < expires_at
    → is_fault (next_query db) ≡ false
    → (consume_token h ty (record (create_token email h ty expires_at db).1 { clock = later })).0
      ≡ ok (set_used later (new_token db email h ty expires_at))
create-consume email h ty expires_at later db made free in_time up =
    rw (create_token-inv email h ty expires_at db made) (
      ap (λ (a : Outcome Token × Db). a.0)
        (consume_token_found h ty (record (with_token email h ty expires_at db) { clock = later })
          (new_token db email h ty expires_at) up
          (open_again email h ty expires_at later db free in_time)))
