-- ===== src/Router/Endpoint/Tests.antt =====
-- Concrete queries of the endpoints that give texts.
use zaas.Prelude.{◌∷◌, []}
use zaas.Http.{Request, blank}
use zaas.OpenApi.Wrapper
use zaas.Service.Gen.Yields.{Yields-pure}
use zaas.Service.Uuid.Sample.{fixed-IsUuid}
use zaas.Handlers.Server.{server}
use zaas.Router.{wrapper_of}
use zaas.Router.Query.{error_of, Read, Reads}
use zaas.Router.Endpoint.{Draws}
use zaas.Router.Endpoint.Texts.{
  WordsAnswer, words_endpoint, LoremAnswer, lorem_endpoint, UuidAnswer, uuid_endpoint, ColorAnswer,
  color_endpoint,
}
use zaas.Router.World.{source_part, started, srv, lib, binder, request_to}

abbrev three : Request
three = request_to "GET" "/api/v1/random" "count"

words_endpoint_example :
    Reads three blank started
      (error_of "style" (binder.bind_string "style" "count")
        ∷ error_of "words" (binder.bind_int "words" "count")
        ∷ error_of "separator" (binder.bind_string "separator" "count")
        ∷ error_of "capitalize" (binder.bind_bool "capitalize" "count")
        ∷ error_of "count" (binder.bind_int "count" "count")
        ∷ [])
      (λ out. Read (binder.bind_string "style" "count") λ style.
        Read (binder.bind_int "words" "count") λ words.
          Read (binder.bind_string "separator" "count") λ separator.
            Read (binder.bind_bool "capitalize" "count") λ capitalize.
              Read (binder.bind_int "count" "count") λ count.
                Draws source_part
                  (WordsAnswer lib source_part srv binder three blank started (record {
                    style = style;
                    words = words;
                    separator = separator;
                    capitalize = capitalize;
                    count = count;
                  }))
                  started
                  out)
      (Wrapper.generate_words (wrapper_of (server lib source_part srv)) binder three blank started)
words_endpoint_example = words_endpoint lib source_part srv binder three blank started

lorem_endpoint_example :
    Reads three blank started
      (error_of "paragraphs" (binder.bind_int "paragraphs" "count")
        ∷ error_of "sentences" (binder.bind_int "sentences" "count")
        ∷ error_of "count" (binder.bind_int "count" "count")
        ∷ [])
      (λ out. Read (binder.bind_int "paragraphs" "count") λ paragraphs.
        Read (binder.bind_int "sentences" "count") λ sentences.
          Read (binder.bind_int "count" "count") λ count.
            Draws source_part
              (LoremAnswer lib source_part srv binder three blank started paragraphs sentences
                count)
              started
              out)
      (Wrapper.generate_lorem (wrapper_of (server lib source_part srv)) binder three blank started)
lorem_endpoint_example = lorem_endpoint lib source_part srv binder three blank started

uuid_endpoint_example :
    Reads three blank started
      (error_of "count" (binder.bind_int "count" "count")
        ∷ error_of "format" (binder.bind_string "format" "count")
        ∷ [])
      (λ out. Read (binder.bind_int "count" "count") λ count.
        Read (binder.bind_string "format" "count") λ format.
          Draws source_part
            (UuidAnswer lib source_part srv binder three blank started count format)
            started
            out)
      (Wrapper.generate_uuid (wrapper_of (server lib source_part srv)) binder three blank started)
uuid_endpoint_example =
    uuid_endpoint lib source_part srv binder three blank started
      (Yields-pure "01234567-89ab-4def-89ab-0123456789ab" fixed-IsUuid)

color_endpoint_example :
    Reads three blank started
      (error_of "format" (binder.bind_string "format" "count")
        ∷ error_of "count" (binder.bind_int "count" "count")
        ∷ [])
      (λ out. Read (binder.bind_string "format" "count") λ format.
        Read (binder.bind_int "count" "count") λ count.
          Draws source_part
            (ColorAnswer lib source_part srv binder three blank started count format)
            started
            out)
      (Wrapper.generate_color (wrapper_of (server lib source_part srv)) binder three blank started)
color_endpoint_example = color_endpoint lib source_part srv binder three blank started
