-- ===== src/OpenApi.antt =====
-- api/internal/gen/openapi.gen.go: the parameters of the operations, the interface that a server
-- implements, and the errors of the parameters. A pointer that may be nil is an option.
pub mod Wrapper
use zaas.Prelude.{String, Bool, Option, List}
use zaas.Prelude.Int.{ℤ}
use zaas.Prelude.Text.{◌^^◌}
use zaas.Http.{Handler, Middleware}

pub record GenerateColorParams : Type 0 where
  pub format : Option String
  pub count : Option ℤ

pub record GenerateCoordinatesParams : Type 0 where
  pub count : Option ℤ
  pub land_only : Option Bool

pub record RollDiceParams : Type 0 where
  pub sides : Option ℤ
  pub count : Option ℤ

pub record GenerateLoremParams : Type 0 where
  pub paragraphs : Option ℤ
  pub sentences : Option ℤ
  pub count : Option ℤ

pub record GenerateNumberParams : Type 0 where
  pub min : Option ℤ
  pub max : Option ℤ
  pub count : Option ℤ
  pub float : Option Bool

pub record GeneratePasswordParams : Type 0 where
  pub length : Option ℤ
  pub uppercase : Option Bool
  pub lowercase : Option Bool
  pub digits : Option Bool
  pub symbols : Option Bool
  pub count : Option ℤ

pub record GenerateSshKeyParams : Type 0 where
  pub key_type : Option String
  pub bits : Option ℤ
  pub comment : Option String
  pub count : Option ℤ

pub record GenerateUuidParams : Type 0 where
  pub count : Option ℤ
  pub format : Option String

pub record GenerateWordsParams : Type 0 where
  pub style : Option String
  pub words : Option ℤ
  pub separator : Option String
  pub capitalize : Option Bool
  pub count : Option ℤ

pub record ServerInterface (S : Type 0) : Type 0 where
  pub auth_register : Handler S
  pub auth_reissue : Handler S
  pub auth_verify : Handler S
  pub flip_coin : Handler S
  pub generate_color : GenerateColorParams → Handler S
  pub generate_coordinates : GenerateCoordinatesParams → Handler S
  pub roll_dice : RollDiceParams → Handler S
  pub generate_lorem : GenerateLoremParams → Handler S
  pub generate_number : GenerateNumberParams → Handler S
  pub get_openapi_spec : Handler S
  pub generate_password : GeneratePasswordParams → Handler S
  pub generate_ssh_key : GenerateSshKeyParams → Handler S
  pub generate_uuid : GenerateUuidParams → Handler S
  pub generate_words : GenerateWordsParams → Handler S

-- The two errors that the wrapper makes; the second has the text of the library's error.
pub data ParamError : Type 0 where
  required_param : String → ParamError
  invalid_param_format : String → String → ParamError

-- `Error()`
abbrev pub error_text : ParamError → String
error_text (required_param name) = "Query argument " ^^ name ^^ " is required, but not found"
error_text (invalid_param_format name err) = "Invalid format for parameter " ^^ name ^^ ": " ^^ err

pub record ServerInterfaceWrapper (S : Type 0) : Type 0 where
  pub handler : ServerInterface S
  pub handler_middlewares : List (Middleware S)
  pub error_handler_func : ParamError → Handler S
