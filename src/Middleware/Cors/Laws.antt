-- ===== src/Middleware/Cors/Laws.antt =====
-- Which origins the browser is told of.
use zaas.Prelude.{
  ◌≡◌, refl, String, Bool, false, ◌||◌, List, [], ◌∷◌, Option, some, none, inl, inr, arith, str_eq,
  if◌then◌else◌, Bool-cases,
}
use zaas.Prelude.Text.{split, trim_space}
use zaas.Http.{Request, Response, Handler, header, blank, write_header}
use zaas.Middleware.Cors.{allow_listed, cors_headers, cors}

-- The origin is one of the list, up to white space round the entries.
abbrev pub is_listed : String → List String → Bool
is_listed origin [] = false
is_listed origin (allowed ∷ rest) = str_eq (trim_space allowed) origin || is_listed origin rest

-- The origin that the answer names: "*" where all are allowed, else the request's own if listed.
abbrev pub granted : String → String → Option String
granted origins origin =
    if str_eq origins "*"
    then some "*"
    else (if is_listed origin (split b',' origins) then some origin else none)

allow_listed-origin :
    (origin : String) (parts : List String)
    → (allow_listed origin parts blank).headers "Access-Control-Allow-Origin"
      ≡ (if is_listed origin parts then some origin else none)
unfolding allow_listed
allow_listed-origin origin [] = refl
allow_listed-origin origin (p ∷ ps) = ground (arith, allow_listed-origin origin ps)

allow_listed-vary :
    (origin : String) (parts : List String)
    → (allow_listed origin parts blank).headers "Vary"
      ≡ (if is_listed origin parts then some "Origin" else none)
unfolding allow_listed
allow_listed-vary origin [] = refl
allow_listed-vary origin (p ∷ ps) = ground (arith, allow_listed-vary origin ps)

-- The response names an origin exactly when all origins are allowed, and then "*", or the request's
-- own is listed, and then that one. It varies by the origin exactly in the second case.
pub cors_headers_grant :
    (origins origin : String)
    → let w = cors_headers origins origin blank in
      (w.headers "Access-Control-Allow-Origin" ≡ granted origins origin)
      × (w.headers "Vary" ≡ (
          if str_eq origins "*"
          then none
          else (if is_listed origin (split b',' origins) then some "Origin" else none)))
unfolding cors_headers
cors_headers_grant origins origin = elim (Bool-cases (str_eq origins "*")) [
  | inl all ↦ rw all (refl, refl)
  | inr some_only ↦ rw some_only (
    allow_listed-origin origin (split b',' origins),
    allow_listed-vary origin (split b',' origins),
  )
]

-- A preflight request is answered 204 with these headers, and the next handler does not run; any
-- other request goes on to the next handler, which finds them set.
pub cors_preflight :
    {S : Type 0} (origins : String) (next : Handler S) (r : Request) (w : Response) (s : S)
    → cors origins next r w s ≡ (
        if str_eq r.method "OPTIONS"
        then (write_header 204 (cors_headers origins (header "Origin" r) w), s)
        else next r (cors_headers origins (header "Origin" r) w) s)
unfolding cors
cors_preflight origins next r w s = refl

allow_listed-status :
    (origin : String) (allowed : List String) (w : Response)
    → (allow_listed origin allowed w).status ≡ w.status
unfolding allow_listed
allow_listed-status origin [] w = refl
allow_listed-status origin (a ∷ rest) w = ground (arith, allow_listed-status origin rest w)

-- The headers leave the status to the handler.
pub cors_headers-status :
    (origins origin : String) (w : Response) → (cors_headers origins origin w).status ≡ w.status
unfolding cors_headers
cors_headers-status origins origin w =
    ground (arith, allow_listed-status origin (split b',' origins) w)
