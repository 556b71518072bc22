-- ===== src/Middleware/Auth/Laws.antt =====
-- Who gets past the check of the API key.
use Prim.Native.Char.{code}
use text.Mathlib.TextLemmas.{nil-append, cons-append, cons-ne-nil}
use zaas.Prelude.{
  ℕ, ◌≡◌, ◌≢◌, refl, ap, inl, inr, String, Bool, true, false, List, [], ◌∷◌, none, some, arith,
  ◌==◌, ◌&&◌, str_eq, str_eq_iff, length, Bool-cases,
}
use zaas.Prelude.Text.{◌^^◌}
use zaas.Http.{Request, Response, Handler, header}
use zaas.Store.{Client, ClientStore, ok}
use zaas.Middleware.Auth.{
  with_client, client_info_from_store, to_lower, bearer, has_prefix_lower, drop_chars, usable,
  reject, admit, auth,
}

-- The whole text is the prefix, in letters of either case.
abbrev pub matches_lower : List ℕ → String → Bool
matches_lower [] String.[] = true
matches_lower [] (String.◌∷◌ _ _) = false
matches_lower (p ∷ ps) String.[] = false
matches_lower (p ∷ ps) (String.◌∷◌ c s) = (to_lower (code c) == p) && matches_lower ps s

scheme_prefix :
    (ps : List ℕ) (scheme key : String)
    → matches_lower ps scheme ≡ true
    → has_prefix_lower ps (scheme ^^ key) ≡ true
unfolding has_prefix_lower
scheme_prefix [] scheme key h = refl
scheme_prefix (p ∷ ps) String.[] key h = cc
scheme_prefix (p ∷ ps) (String.◌∷◌ c s) key h =
    rw cons-append (ground (arith, scheme_prefix ps s key))

scheme_drop :
    (ps : List ℕ) (scheme key : String)
    → matches_lower ps scheme ≡ true
    → drop_chars (length ps) (scheme ^^ key) ≡ key
unfolding drop_chars
scheme_drop [] String.[] key h = nil-append key
scheme_drop [] (String.◌∷◌ _ _) key h = cc
scheme_drop (p ∷ ps) String.[] key h = cc
scheme_drop (p ∷ ps) (String.◌∷◌ c s) key h = rw cons-append (scheme_drop ps s key (ground arith))

scheme-ne-nil :
    (scheme key : String) → matches_lower bearer scheme ≡ true → str_eq (scheme ^^ key) "" ≡ false
scheme-ne-nil String.[] key h = cc
scheme-ne-nil (String.◌∷◌ c s) key h = elim (Bool-cases (str_eq (String.◌∷◌ c s ^^ key) "")) [
  | inl e ↦ absurd (cons-ne-nil c (s ^^ key) (rw cons-append at ((str_eq_iff _ _).0 e)))
  | inr e ↦ e
]

-- A client that may use its key: verified, and not revoked.
pub record IsUsable (c : Client) : Type 0 where
  pub verified : c.verified_at ≢ none
  pub not_revoked : c.revoked_at ≡ none

usable_of_IsUsable : (c : Client) → IsUsable c → usable (ok (some c)) ≡ some c
usable_of_IsUsable c h = ground arith

module _ {S : Type 0} (sha256sum : String → String) (clients : ClientStore S) where
  -- What the check does with a request, of the three things it can do.
  pub data Checked (next : Handler S) (r : Request) (w : Response) (s : S) (out : Response × S)
      : Type 0 where
    anonymous : header "Authorization" r ≡ "" → out ≡ next r w s → Checked next r w s out
    recognised :
        (c : Client) (key : String) (s' : S)
        → clients.get_client_by_api_key_hash (sha256sum key) s ≡ (ok (some c), s')
        → IsUsable c
        → out ≡ next (with_client r (client_info_from_store c)) w s'
        → Checked next r w s out
    refused :
        (s' : S) → header "Authorization" r ≢ "" → out ≡ (reject r w, s') → Checked next r w s out

-- A client that is verified and not revoked gets in with the key whose hash the store knows, under
-- the scheme "Bearer" in letters of either case.
pub auth_accepts :
    {S : Type 0} (sha256sum : String → String) (clients : ClientStore S) (next : Handler S)
    (r : Request) (w : Response) (s s' : S) (scheme key : String) (c : Client)
    → matches_lower bearer scheme ≡ true
    → header "Authorization" r ≡ scheme ^^ key
    → clients.get_client_by_api_key_hash (sha256sum key) s ≡ (ok (some c), s')
    → IsUsable c
    → auth sha256sum (some clients) next r w s
      ≡ next (with_client r (client_info_from_store c)) w s'
unfolding auth
auth_accepts sha256sum clients next r w s s' scheme key c lower sent found good =
    rw
      (
        sent,
        scheme-ne-nil scheme key lower,
        scheme_prefix bearer scheme key lower,
        scheme_drop bearer scheme key lower,
        found,
      )
      (ap (λ o. admit next r w (o, s')) (usable_of_IsUsable c good))
