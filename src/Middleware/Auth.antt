-- ===== src/Middleware/Auth.antt =====
-- api/internal/middleware/auth.go and context.go: who sends the request, by its API key.
-- The hex digest of SHA-256 is a parameter. The attributes of the trace span are left out.
pub mod Laws
use Prim.Native.Char.{Char, code}
use Prim.Native.String
use zaas.Prelude.{
  ℕ, zero, suc, ◌+◌, String, Bool, true, false, not, ◌&&◌, ◌||◌, List, [], ◌∷◌, Option, none, some,
  ltb, leb, ◌==◌, str_eq, if◌then◌else◌,
}
use zaas.Http.{Request, Response, Handler, Middleware, ClientInfo, header}
use zaas.Store.{Client, ClientStore, Outcome, ok, err}
use zaas.Middleware.Problem.{write_problem}

-- `WithClient`
abbrev pub with_client : Request → ClientInfo → Request
with_client r info = record r { client = some info }

-- `GetClient`
abbrev pub get_client : Request → Option ClientInfo
get_client r = r.client

-- `ClientInfoFromStore`
abbrev pub client_info_from_store : Client → ClientInfo
client_info_from_store c = record {
  id = c.id;
  display_name = c.display_name;
  rate_limit_rpm = c.rate_limit_rpm;
}

-- `strings.ToLower` on one character. Beyond ASCII it is left out, since no other character has
-- one of the letters of "bearer " as its lower case.
abbrev pub to_lower : ℕ → ℕ
to_lower c = if leb b'A' c && leb c b'Z' then c + 32 else c

-- The text "bearer ", by its characters.
abbrev pub bearer : List ℕ
bearer = b'b' ∷ b'e' ∷ b'a' ∷ b'r' ∷ b'e' ∷ b'r' ∷ b' ' ∷ []

-- `strings.HasPrefix(strings.ToLower(s), prefix)`
unfoldable pub has_prefix_lower : List ℕ → String → Bool
has_prefix_lower [] s = true
has_prefix_lower (p ∷ ps) String.[] = false
has_prefix_lower (p ∷ ps) (String.◌∷◌ c s) = (to_lower (code c) == p) && has_prefix_lower ps s

-- `s[n:]`, where the first n characters are ASCII.
unfoldable pub drop_chars : ℕ → String → String
drop_chars zero s = s
drop_chars (suc n) String.[] = String.[]
drop_chars (suc n) (String.◌∷◌ c s) = drop_chars n s

-- The test `err != nil || client == nil || client.RevokedAt != nil || client.VerifiedAt == nil`:
-- the client, if it passes.
abbrev pub usable : Outcome (Option Client) → Option Client
usable (err _) = none
usable (ok none) = none
usable (ok (some c)) = elim c.revoked_at [
  | some _ ↦ none
  | none ↦ elim c.verified_at [ none ↦ none | some _ ↦ some c ]
]

abbrev pub reject : Request → Response → Response
reject r w =
    write_problem r w "INVALID_API_KEY"
      "Invalid or revoked API key. Email contact@zaas.at to request a reissue."

abbrev pub admit : {S : Type 0} → Handler S → Request → Response → Option Client × S → Response × S
admit next r w (none, s) = (reject r w, s)
admit next r w (some c, s) = next (with_client r (client_info_from_store c)) w s

abbrev pub look_up : {S : Type 0} → Option (ClientStore S) → String → S → Option Client × S
look_up none hash s = (none, s)
look_up (some clients) hash s =
    let (found, s') = clients.get_client_by_api_key_hash hash s in (usable found, s')

unfoldable pub auth : {S : Type 0} → (String → String) → Option (ClientStore S) → Middleware S
unfolding has_prefix_lower drop_chars
auth sha256sum clients next r w s =
    let auth_header = header "Authorization" r in
    if str_eq auth_header ""
    then next r w s
    else (if not (has_prefix_lower bearer auth_header)
        then (reject r w, s)
        else admit next r w (look_up clients (sha256sum (drop_chars 7 auth_header)) s))
