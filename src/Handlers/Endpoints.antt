-- ===== src/Handlers/Endpoints.antt =====
-- The random endpoints of api/internal/handler/server.go: the defaults of the parameters, the call
-- of the service, and the answer. A parameter that the query leaves out is `none`. A handler is run
-- from a source of random numbers.
pub mod Answers
pub mod Floats
pub mod SshKeys
use zaas.Prelude.{
  String, Bool, true, false, List, [], ◌∷◌, Option, none, some, str_eq, default_to, if◌then◌else◌,
}
use zaas.Prelude.Int.{ℤ, pos}
use zaas.Http.{Request, Response, Json, text, int, boolean}
use zaas.OpenApi.{GeneratePasswordParams, GenerateWordsParams}
use zaas.Service.Gen.{ServiceError, Run, done, failed, panicked, Gen}
use zaas.Service.Number.{random_ints, roll_dice, flip_coin}
use zaas.Service.Uuid.{generate_uuids}
use zaas.Service.Float.{Float64}
use zaas.Service.Color.{random_colors}
use zaas.Service.Password.{generate_passwords}
use zaas.Service.Words.{WordsParams, random_words}
use zaas.Service.Lorem.{random_lorem}
use zaas.Handlers.Respond.{write_error, write_single, write_results, default_ptr}

-- `WriteError(w, r, http.StatusBadRequest, "INVALID_PARAM", err.Error(), 0)`
abbrev pub invalid_param : Response → Request → ServiceError → Response
invalid_param w r e = write_error w r 400 "INVALID_PARAM" e.message (pos 0)

module _ {T : Type 0} (to_json : T → Json) (w : Response) (r : Request) where
  -- The end of each handler: `err != nil` answers 400, else the results are written.
  abbrev pub answer_run : List (String × Json) → Run (List T) → Run Response
  answer_run params (done results g) = done (write_results to_json w r results params) g
  answer_run params (failed e g) = done (invalid_param w r e) g
  answer_run params panicked = panicked

  unfoldable pub answer : List (String × Json) → Gen (List T) → Gen Response
  answer params m g = answer_run params (m g)

unfoldable pub roll_dice_handler : Option ℤ → Option ℤ → Response → Request → Gen Response
unfolding answer roll_dice
roll_dice_handler sides count w r =
    let n = default_ptr sides (pos 6) in
    let k = default_ptr count (pos 1) in
    answer int w r (("sides", int n) ∷ ("count", int k) ∷ []) (roll_dice n k)

abbrev pub single_run : Response → Request → Run String → Run Response
single_run w r (done s g) = done (write_single w r (text s) []) g
single_run w r (failed e g) = failed e g
single_run w r panicked = panicked

unfoldable pub flip_coin_handler : Response → Request → Gen Response
unfolding flip_coin
flip_coin_handler w r g = single_run w r (flip_coin g)

-- `GenerateNumber` where `float` is false.
unfoldable pub generate_ints : Option ℤ → Option ℤ → Option ℤ → Response → Request → Gen Response
unfolding answer random_ints
generate_ints min max count w r =
    let lo = default_ptr min (pos 0) in
    let hi = default_ptr max (pos 100) in
    let k = default_ptr count (pos 1) in
    answer int w r
      (("min", int lo) ∷ ("max", int hi) ∷ ("count", int k) ∷ ("float", boolean false) ∷ [])
      (random_ints lo hi k)

unfoldable pub generate_uuid :
    Gen String → (String → String) → Option ℤ → Option String → Response → Request → Gen Response
unfolding answer generate_uuids
generate_uuid new_uuid quote count format w r =
    let k = default_ptr count (pos 1) in
    let f = default_ptr format "standard" in
    answer text w r (("count", int k) ∷ ("format", text f) ∷ []) (generate_uuids new_uuid quote k f)

unfoldable pub generate_color :
    Float64 → (String → String) → Option ℤ → Option String → Response → Request → Gen Response
unfolding answer random_colors
generate_color fl quote count format w r =
    let k = default_ptr count (pos 1) in
    let f = default_ptr format "hex" in
    answer text w r (("count", int k) ∷ ("format", text f) ∷ []) (random_colors fl quote k f)

unfoldable pub generate_password : GeneratePasswordParams → Response → Request → Gen Response
unfolding answer generate_passwords
generate_password params w r =
    let size = default_ptr params.length (pos 16) in
    let uppercase = default_ptr params.uppercase true in
    let lowercase = default_ptr params.lowercase true in
    let digits = default_ptr params.digits true in
    let symbols = default_ptr params.symbols true in
    let k = default_ptr params.count (pos 1) in
    answer text w r
      (("length", int size)
        ∷ ("uppercase", boolean uppercase)
        ∷ ("lowercase", boolean lowercase)
        ∷ ("digits", boolean digits)
        ∷ ("symbols", boolean symbols)
        ∷ ("count", int k)
        ∷ [])
      (generate_passwords k size uppercase lowercase digits symbols)

-- The separator of a style.
abbrev pub style_separator : String → String
style_separator style =
    if str_eq style "docker" then "_" else (if str_eq style "ubuntu" then " " else "-")

-- The query with its defaults filled in, some of them by the style.
abbrev pub resolve_words : GenerateWordsParams → WordsParams
resolve_words q =
    let style = default_ptr q.style "random" in
    record {
      style = style;
      words = default_ptr q.words (pos 4);
      separator = default_to q.separator (style_separator style);
      capitalize = default_to q.capitalize (str_eq style "ubuntu");
      count = default_ptr q.count (pos 1);
    }

unfoldable pub generate_words :
    (String → String) → GenerateWordsParams → Response → Request → Gen Response
unfolding answer random_words
generate_words quote q w r =
    let p = resolve_words q in
    answer text w r
      (("style", text p.style)
        ∷ ("words", int p.words)
        ∷ ("separator", text p.separator)
        ∷ ("capitalize", boolean p.capitalize)
        ∷ ("count", int p.count)
        ∷ [])
      (random_words quote p)

unfoldable pub generate_lorem : Option ℤ → Option ℤ → Option ℤ → Response → Request → Gen Response
unfolding answer random_lorem
generate_lorem count paragraphs sentences w r =
    let k = default_ptr count (pos 1) in
    let p = default_ptr paragraphs (pos 1) in
    let s = default_ptr sentences (pos 0) in
    answer text w r (("count", int k) ∷ ("paragraphs", int p) ∷ ("sentences", int s) ∷ [])
      (random_lorem k p s)
