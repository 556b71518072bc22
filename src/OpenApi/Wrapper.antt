-- ===== src/OpenApi/Wrapper.antt =====
-- `ServerInterfaceWrapper` of api/internal/gen/openapi.gen.go: each method binds the parameters of
-- the query in turn, and hands the first that fails to the error handler.
use zaas.Prelude.{String, Bool, List, [], ◌∷◌, Option}
use zaas.Prelude.Int.{ℤ}
use zaas.Http.{Handler, Middleware}
use zaas.OpenApi.{required_param, invalid_param_format, ServerInterfaceWrapper}

-- What `runtime.BindQueryParameterWithOptions` comes to: a value, none where the query has no such
-- parameter; a `RequiredParameterError`; or another error, by its text.
pub data Bound (A : Type 0) : Type 0 where
  bound : Option A → Bound A
  is_required : Bound A
  malformed : String → Bound A

-- The library at the three types that the wrapper asks for, on a name and a query.
pub record QueryBinder : Type 0 where
  pub bind_string : String → String → Bound String
  pub bind_int : String → String → Bound ℤ
  pub bind_bool : String → String → Bound Bool

-- The loop `handler = middleware(handler)`.
abbrev pub apply_middlewares : {S : Type 0} → List (Middleware S) → Handler S → Handler S
apply_middlewares [] handler = handler
apply_middlewares (m ∷ ms) handler = apply_middlewares ms (m handler)

module _ {S : Type 0} (siw : ServerInterfaceWrapper S) where
  abbrev pub serve : Handler S → Handler S
  serve handler = apply_middlewares siw.handler_middlewares handler

  -- The block that binds one parameter, and what follows it.
  abbrev pub with_param : {A : Type 0} → String → Bound A → (Option A → Handler S) → Handler S
  with_param name (bound v) next = next v
  with_param name is_required next = siw.error_handler_func (required_param name)
  with_param name (malformed err) next = siw.error_handler_func (invalid_param_format name err)

  unfoldable pub auth_register : Handler S
  auth_register = serve siw.handler.auth_register

  unfoldable pub auth_reissue : Handler S
  auth_reissue = serve siw.handler.auth_reissue

  unfoldable pub auth_verify : Handler S
  auth_verify = serve siw.handler.auth_verify

  unfoldable pub flip_coin : Handler S
  flip_coin = serve siw.handler.flip_coin

  unfoldable pub get_openapi_spec : Handler S
  get_openapi_spec = serve siw.handler.get_openapi_spec

  module _ (rt : QueryBinder) where
    unfoldable pub generate_color : Handler S
    generate_color r =
        (with_param "format" (rt.bind_string "format" r.query) λ format.
            with_param "count" (rt.bind_int "count" r.query) λ count.
              serve (siw.handler.generate_color (record { format = format; count = count })))
          r

    unfoldable pub generate_coordinates : Handler S
    generate_coordinates r =
        (with_param "count" (rt.bind_int "count" r.query) λ count.
            with_param "land_only" (rt.bind_bool "land_only" r.query) λ land_only.
              serve (
                siw.handler.generate_coordinates (record { count = count; land_only = land_only })))
          r

    unfoldable pub roll_dice : Handler S
    roll_dice r =
        (with_param "sides" (rt.bind_int "sides" r.query) λ sides.
            with_param "count" (rt.bind_int "count" r.query)
              λ count. serve (siw.handler.roll_dice (record { sides = sides; count = count })))
          r

    unfoldable pub generate_lorem : Handler S
    generate_lorem r =
        (with_param "paragraphs" (rt.bind_int "paragraphs" r.query) λ paragraphs.
            with_param "sentences" (rt.bind_int "sentences" r.query) λ sentences.
              with_param "count" (rt.bind_int "count" r.query) λ count. serve (
                siw.handler.generate_lorem
                  (record { paragraphs = paragraphs; sentences = sentences; count = count })))
          r

    unfoldable pub generate_number : Handler S
    generate_number r =
        (with_param "min" (rt.bind_int "min" r.query) λ min.
            with_param "max" (rt.bind_int "max" r.query) λ max.
              with_param "count" (rt.bind_int "count" r.query) λ count.
                with_param "float" (rt.bind_bool "float" r.query) λ float. serve (
                  siw.handler.generate_number
                    (record { min = min; max = max; count = count; float = float })))
          r

    unfoldable pub generate_password : Handler S
    generate_password r =
        (with_param "length" (rt.bind_int "length" r.query) λ length.
            with_param "uppercase" (rt.bind_bool "uppercase" r.query) λ uppercase.
              with_param "lowercase" (rt.bind_bool "lowercase" r.query) λ lowercase.
                with_param "digits" (rt.bind_bool "digits" r.query) λ digits.
                  with_param "symbols" (rt.bind_bool "symbols" r.query) λ symbols.
                    with_param "count" (rt.bind_int "count" r.query) λ count. serve (
                      siw.handler.generate_password (record {
                        length = length;
                        uppercase = uppercase;
                        lowercase = lowercase;
                        digits = digits;
                        symbols = symbols;
                        count = count;
                      })))
          r

    unfoldable pub generate_ssh_key : Handler S
    generate_ssh_key r =
        (with_param "type" (rt.bind_string "type" r.query) λ key_type.
            with_param "bits" (rt.bind_int "bits" r.query) λ bits.
              with_param "comment" (rt.bind_string "comment" r.query) λ comment.
                with_param "count" (rt.bind_int "count" r.query) λ count. serve (
                  siw.handler.generate_ssh_key (record {
                    key_type = key_type;
                    bits = bits;
                    comment = comment;
                    count = count;
                  })))
          r

    unfoldable pub generate_uuid : Handler S
    generate_uuid r =
        (with_param "count" (rt.bind_int "count" r.query) λ count.
            with_param "format" (rt.bind_string "format" r.query) λ format.
              serve (siw.handler.generate_uuid (record { count = count; format = format })))
          r

    unfoldable pub generate_words : Handler S
    generate_words r =
        (with_param "style" (rt.bind_string "style" r.query) λ style.
            with_param "words" (rt.bind_int "words" r.query) λ words.
              with_param "separator" (rt.bind_string "separator" r.query) λ separator.
                with_param "capitalize" (rt.bind_bool "capitalize" r.query) λ capitalize.
                  with_param "count" (rt.bind_int "count" r.query) λ count. serve (
                    siw.handler.generate_words (record {
                      style = style;
                      words = words;
                      separator = separator;
                      capitalize = capitalize;
                      count = count;
                    })))
          r
