-- ===== src/Middleware/ClientIp.antt =====
-- `extractIP` of api/internal/middleware/ratelimit.go: the address by which an anonymous client is
-- limited.
pub mod Laws
use Prim.Native.Char.{Char, code}
use Prim.Native.String
use zaas.Prelude.{
  ℕ, String, Bool, true, false, not, ◌&&◌, ◌||◌, List, [], ◌∷◌, Option, none, some, ◌==◌, str_eq,
  last_or, if◌then◌else◌, default_to,
}
use zaas.Prelude.Text.{split, trim_space}
use zaas.Http.{Request, header}

-- `strings.IndexByte(s, c) >= 0`
unfoldable pub has_char : ℕ → String → Bool
has_char c String.[] = false
has_char c (String.◌∷◌ d s) = (code d == c) || has_char c s

-- The parts before and after the first `c`.
unfoldable pub cut_first : ℕ → String → Option (String × String)
cut_first c String.[] = none
cut_first c (String.◌∷◌ d s) =
    let later : Option (String × String) = elim (cut_first c s) [
      | none ↦ none
      | some (before, after) ↦ some (String.◌∷◌ d before, after)
    ] in
    if code d == c then some (String.[], s) else later

-- The parts before and after the last `c`.
unfoldable pub cut_last : ℕ → String → Option (String × String)
unfolding has_char
cut_last c String.[] = none
cut_last c (String.◌∷◌ d s) =
    let later : Option (String × String) = elim (cut_last c s) [
      | none ↦ none
      | some (before, after) ↦ some (String.◌∷◌ d before, after)
    ] in
    if (code d == c) && not (has_char c s) then some (String.[], s) else later

-- The host of "[host]:port", of what follows the first bracket.
abbrev pub bracketed_host : String → Option String
bracketed_host rest = elim (cut_first b']' rest) [
  | none ↦ none
  | some (host, after) ↦ elim (cut_first b':' after) [
    | none ↦ none
    | some (gap, port) ↦
        if str_eq gap ""
          && not (has_char b':' port)
          && not (has_char b'[' rest)
          && not (has_char b']' port)
        then some host
        else none
  ]
]

-- The host of "host:port".
abbrev pub plain_host : String → Option String
plain_host hostport = elim (cut_last b':' hostport) [
  | none ↦ none
  | some (host, port) ↦
      if has_char b':' host || has_char b'[' hostport || has_char b']' hostport
      then none
      else some host
]

-- The host that `net.SplitHostPort` gives; `none` is any of its errors.
unfoldable pub split_host : String → Option String
unfolding has_char cut_first cut_last
split_host String.[] = none
split_host (String.◌∷◌ d s) =
    if code d == b'[' then bracketed_host s else plain_host (String.◌∷◌ d s)

abbrev pub remote_host : Request → String
remote_host r = default_to (split_host r.remote_addr) r.remote_addr

unfoldable pub extract_ip : Request → String
unfolding split_host
extract_ip r =
    let xff = header "X-Forwarded-For" r in
    let ip = trim_space (last_or "" (split b',' xff)) in
    if not (str_eq xff "") && not (str_eq ip "") then ip else remote_host r
