-- ===== src/Http.antt =====
-- What the handlers see of net/http: the request with its context, the response writer, and the
-- problem details of RFC 9457 that the JSON encoder writes. A header map is a dictionary; reading a
-- missing header gives "", as `Header.Get` does. `json.NewEncoder(w).Encode(body)` appends `body`.
-- A request is handled at one instant, `clock`, which stands for every `time.Now()` on its way.
use zaas.Prelude.{ℕ, Bool, String, List, [], ◌∷◌, ◌++◌, Option, none, some, default_to}
use zaas.Prelude.Int.{ℤ}
use zaas.Prelude.Dict.{Dict, empty, insert}

-- `middleware.ClientInfo`
pub record ClientInfo : Type 0 where
  pub id : String
  pub display_name : String
  pub rate_limit_rpm : ℤ

-- `query` is the query of the URL, not parsed. `client` and `request_id` are the values that the
-- middleware attached to the context.
pub record Request : Type 0 where
  pub method : String
  pub path : String
  pub query : String
  pub body : String
  pub headers : Dict String
  pub remote_addr : String
  pub client : Option ClientInfo
  pub request_id : String
  pub clock : ℕ

-- `r.Header.Get(name)`
abbrev pub header : String → Request → String
header name r = default_to (r.headers name) ""

-- `gen.Problem`, and the same object as the maps of the middleware spell it.
pub record Problem : Type 0 where
  pub type_url : String
  pub title : String
  pub status : ℕ
  pub detail : String
  pub instance_path : String
  pub code : String
  pub request_id : String
  pub retry_after : Option ℤ

-- A value of a JSON object that the handlers write.
pub data Json : Type 0 where
  text : String → Json
  int : ℤ → Json
  boolean : Bool → Json
  -- The decimal text of a float.
  float : String → Json
  coordinate : String → String → Json
  ssh_key : String → String → String → Json

-- `gen.Meta`
pub record Meta : Type 0 where
  pub endpoint : String
  pub timestamp : ℕ
  pub params : List (String × Json)
  pub request_id : String

pub data Body : Type 0 where
  problem : Problem → Body
  object : List (String × Json) → Body
  single_response : Json → Meta → Body
  multi_response : List Json → Meta → Body
  bytes : String → Body

-- `status` is `none` until `WriteHeader` is called.
pub record Response : Type 0 where
  pub headers : Dict String
  pub status : Option ℕ
  pub body : List Body

abbrev pub blank : Response
blank = record { headers = empty; status = none; body = [] }

abbrev pub set_header : String → String → Response → Response
set_header name value w = record w { headers = insert name value w.headers }

-- Only the first call of `WriteHeader` counts.
abbrev pub write_header : ℕ → Response → Response
write_header code w = record w { status = some (default_to w.status code) }

abbrev pub encode : Body → Response → Response
encode b w = record w { status = some (default_to w.status 200); body = w.body ++ b ∷ [] }

-- A handler writes to the response and changes the state of the world `S`.
abbrev pub Handler : Type 0 → Type 0
Handler S = Request → Response → S → Response × S

abbrev pub Middleware : Type 0 → Type 0
Middleware S = Handler S → Handler S
