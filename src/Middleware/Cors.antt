-- ===== src/Middleware/Cors.antt =====
-- api/internal/middleware/cors.go.
pub mod Laws
use Prim.Native.Char.{Char, code}
use Prim.Native.String
use zaas.Prelude.{
  ℕ, suc, String, Bool, true, false, ◌&&◌, ◌||◌, List, [], ◌∷◌, some, none, Option, leb, ◌==◌,
  str_eq, if◌then◌else◌,
}
use zaas.Prelude.Text.{split, trim_space}
use zaas.Http.{Request, Response, Handler, Middleware, header, set_header, write_header}

-- The loop over the allowed origins: the first that fits sets the headers, and breaks.
unfoldable pub allow_listed : String → List String → Response → Response
allow_listed origin [] w = w
allow_listed origin (allowed ∷ rest) w =
    if str_eq (trim_space allowed) origin
    then set_header "Vary" "Origin" (set_header "Access-Control-Allow-Origin" origin w)
    else allow_listed origin rest w

unfoldable pub cors_headers : String → String → Response → Response
unfolding allow_listed
cors_headers origins origin w =
    let opened =
      if str_eq origins "*"
      then set_header "Access-Control-Allow-Origin" "*" w
      else allow_listed origin (split b',' origins) w in
    set_header "Access-Control-Allow-Headers" "Content-Type, Authorization"
      (set_header "Access-Control-Allow-Methods" "GET, OPTIONS" opened)

unfoldable pub cors : {S : Type 0} → String → Middleware S
unfolding cors_headers
cors origins next r w s =
    let w' = cors_headers origins (header "Origin" r) w in
    if str_eq r.method "OPTIONS" then (write_header 204 w', s) else next r w' s
