-- ===== src/Router/Query.antt =====
-- What the generated wrapper of api/internal/gen/openapi.gen.go makes of the parameters of a query,
-- with the error handler of api/internal/handler/router.go.
use zaas.Prelude.{◌≡◌, refl, String, List, [], ◌∷◌, Option, none, some}
use zaas.Http.{Request, Response, Handler}
use zaas.OpenApi.{ParamError, required_param, invalid_param_format, ServerInterface}
use zaas.OpenApi.Wrapper.{Bound, bound, is_required, malformed, with_param}
use zaas.Router.{param_error, wrapper_of}

-- What is wrong with a parameter, and the first thing that is.
abbrev pub error_of : {A : Type 0} → String → Bound A → Option ParamError
error_of name (bound v) = none
error_of name is_required = some (required_param name)
error_of name (malformed err) = some (invalid_param_format name err)

abbrev pub first_of : List (Option ParamError) → Option ParamError
first_of [] = none
first_of (none ∷ es) = first_of es
first_of (some e ∷ es) = some e

-- The parameter is good, and `P` holds of its value.
abbrev pub Read : {A : Type 0} → Bound A → (Option A → Type 0) → Type 0
Read {A} b P = (x : Option A) × (b ≡ bound x) × P x

module _ {S : Type 0} (r : Request) (w : Response) (s : S) where
  -- The first parameter that is not good is answered 400 and changes nothing; else `P` holds.
  pub data Reads (errors : List (Option ParamError)) (P : Response × S → Type 0)
      (out : Response × S) : Type 0 where
    bad_query :
        (e : ParamError) → first_of errors ≡ some e → out ≡ param_error e r w s → Reads errors P out
    good_query : P out → Reads errors P out

  module _ (srv : ServerInterface S) {A : Type 0} (name : String)
      (errors : List (Option ParamError)) (P : Option A → Response × S → Type 0) where
    read_value :
        (x : Option A) (out : Response × S)
        → Reads errors (P x) out
        → Reads (none ∷ errors) (λ o. Read (bound x) λ y. P y o) out
    read_value x out (bad_query e first same) = bad_query e first same
    read_value x out (good_query h) = good_query (x, refl, h)

    pub reads :
        (b : Bound A) (next : Option A → Handler S)
        → ((x : Option A) → Reads errors (P x) (next x r w s))
        → Reads
            (error_of name b ∷ errors)
            (λ out. Read b λ x. P x out)
            (with_param (wrapper_of srv) name b next r w s)
    reads (bound x) next h = read_value x (next x r w s) (h x)
    reads is_required next h = bad_query (required_param name) refl refl
    reads (malformed e) next h = bad_query (invalid_param_format name e) refl refl
