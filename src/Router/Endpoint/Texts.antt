-- ===== src/Router/Endpoint/Texts.antt =====
-- The endpoints of api/internal/handler/server.go that give texts, from the query to the answer.
use zaas.Prelude.{◌≡◌, String, [], ◌∷◌, Option, length}
use zaas.Prelude.Int.{ℤ, pos}
use zaas.Prelude.Lens.{Lens}
use zaas.Http.{Request, Response, text, int}
use zaas.OpenApi.{GenerateWordsParams}
use zaas.OpenApi.Wrapper.{QueryBinder}
use zaas.OpenApi.Wrapper
use zaas.Service.Gen.{Source}
use zaas.Service.Gen.Yields.{Yields, AllFrom}
use zaas.Service.Words.Laws.{TakesWords, IsWordString}
use zaas.Service.Lorem.{random_lorem}
use zaas.Service.Lorem.Laws.{TakesLorem, LoremAt, random_lorem-Yields}
use zaas.Service.Uuid.{generate_uuids}
use zaas.Service.Uuid.Laws.{IsUuid, IsFormatted, TakesUuid, generate_uuids-Yields}
use zaas.Service.Color.{random_colors}
use zaas.Service.Color.Laws.{TakesColor, IsSomeColor, random_colors-Yields}
use zaas.Handlers.Auth.{Server}
use zaas.Handlers.Respond.{default_ptr}
use zaas.Handlers.Endpoints.{
  resolve_words, generate_words, generate_lorem, generate_uuid, generate_color,
}
use zaas.Handlers.Endpoints.Answers.{
  Answered, Counted, words_meta, answer-Yields, Yields-regroup, generate_words-Yields,
}
use zaas.Handlers.Server.{Libraries, server}
use zaas.Router.{wrapper_of}
use zaas.Router.Query.{error_of, Read, Reads, good_query, reads}
use zaas.Router.Endpoint.{Draws, run_gen-Draws}

module _ {S : Type 0} (lib : Libraries) (source : Lens S Source) (srv : Server S)
    (binder : QueryBinder) (r : Request) (w : Response) (s : S) where
  abbrev pub WordsAnswer : GenerateWordsParams → Response → Type 0
  WordsAnswer q =
      let p = resolve_words q in
      Answered text w r (words_meta p) (TakesWords p) (Counted p.count (IsWordString p))

  -- The route /api/v1/words answers 400 and changes nothing where a parameter of the query cannot be
  -- read, with the first such parameter; else it answers 200 with the count that was asked for of
  -- word strings in the style that was asked for, or 400 where the parameters, with the defaults of
  -- their style, are not in order, and takes numbers from the source and changes nothing else.
  pub words_endpoint :
      Reads r w s
        (error_of "style" (binder.bind_string "style" r.query)
          ∷ error_of "words" (binder.bind_int "words" r.query)
          ∷ error_of "separator" (binder.bind_string "separator" r.query)
          ∷ error_of "capitalize" (binder.bind_bool "capitalize" r.query)
          ∷ error_of "count" (binder.bind_int "count" r.query)
          ∷ [])
        (λ out. Read (binder.bind_string "style" r.query) λ style.
          Read (binder.bind_int "words" r.query) λ words.
            Read (binder.bind_string "separator" r.query) λ separator.
              Read (binder.bind_bool "capitalize" r.query) λ capitalize.
                Read (binder.bind_int "count" r.query) λ count.
                  Draws source
                    (WordsAnswer (record {
                      style = style;
                      words = words;
                      separator = separator;
                      capitalize = capitalize;
                      count = count;
                    }))
                    s
                    out)
        (Wrapper.generate_words (wrapper_of (server lib source srv)) binder r w s)
  unfolding Wrapper.generate_words
  words_endpoint = reads r w s (server lib source srv) "style" _ _ _ _ λ style.
      reads r w s (server lib source srv) "words" _ _ _ _ λ words.
        reads r w s (server lib source srv) "separator" _ _ _ _ λ separator.
          reads r w s (server lib source srv) "capitalize" _ _ _ _ λ capitalize.
            reads r w s (server lib source srv) "count" [] _ _ _ λ count.
              let q : GenerateWordsParams = record {
                style = style;
                words = words;
                separator = separator;
                capitalize = capitalize;
                count = count;
              } in
              good_query (
                run_gen-Draws source (WordsAnswer q) (generate_words lib.quote q) r w s
                  (generate_words-Yields lib.quote q w r))

  abbrev pub LoremAnswer : Option ℤ → Option ℤ → Option ℤ → Response → Type 0
  LoremAnswer paragraphs sentences count =
      let k = default_ptr count (pos 1) in
      let p = default_ptr paragraphs (pos 1) in
      let n = default_ptr sentences (pos 0) in
      Answered text w r (("count", int k) ∷ ("paragraphs", int p) ∷ ("sentences", int n) ∷ [])
        (TakesLorem k p n) (λ texts. (pos (length texts) ≡ k) × AllFrom (LoremAt p n) 0 texts)

  -- The route /api/v1/lorem answers 400 and changes nothing where a parameter of the query cannot be
  -- read, with the first such parameter; else it answers 200 with the count that was asked for of
  -- texts with the sentences or paragraphs that were asked for, or 400 where the parameters are not
  -- in order, and takes numbers from the source and changes nothing else.
  pub lorem_endpoint :
      Reads r w s
        (error_of "paragraphs" (binder.bind_int "paragraphs" r.query)
          ∷ error_of "sentences" (binder.bind_int "sentences" r.query)
          ∷ error_of "count" (binder.bind_int "count" r.query)
          ∷ [])
        (λ out. Read (binder.bind_int "paragraphs" r.query) λ paragraphs.
          Read (binder.bind_int "sentences" r.query) λ sentences.
            Read
              (binder.bind_int "count" r.query)
              λ count. Draws source (LoremAnswer paragraphs sentences count) s out)
        (Wrapper.generate_lorem (wrapper_of (server lib source srv)) binder r w s)
  unfolding Wrapper.generate_lorem generate_lorem
  lorem_endpoint = reads r w s (server lib source srv) "paragraphs" _ _ _ _ λ paragraphs.
      reads r w s (server lib source srv) "sentences" _ _ _ _ λ sentences.
        reads r w s (server lib source srv) "count" [] _ _ _ λ count.
          let k = default_ptr count (pos 1) in
          let p = default_ptr paragraphs (pos 1) in
          let n = default_ptr sentences (pos 0) in
          good_query (
            run_gen-Draws source (LoremAnswer paragraphs sentences count) _ r w s (
              answer-Yields text w r _ (TakesLorem k p n) _ (random_lorem k p n)
                (Yields-regroup (random_lorem-Yields k p n))))

  abbrev pub UuidAnswer : Option ℤ → Option String → Response → Type 0
  UuidAnswer count format =
      let k = default_ptr count (pos 1) in
      let f = default_ptr format "standard" in
      Answered text w r (("count", int k) ∷ ("format", text f) ∷ []) (TakesUuid k f)
        (Counted k (λ t. (u : String) × IsUuid u × IsFormatted f u t))

  -- If `uuid.New` gives UUIDs: the route /api/v1/uuid answers 400 and changes nothing where a
  -- parameter of the query cannot be read, with the first such parameter; else it answers 200 with
  -- the count that was asked for of UUIDs in the format that was asked for, or 400 where there is no
  -- such count or format, and takes numbers from the source and changes nothing else.
  pub uuid_endpoint :
      Yields IsUuid (λ e. ⊥) lib.new_uuid
      → Reads r w s
          (error_of "count" (binder.bind_int "count" r.query)
            ∷ error_of "format" (binder.bind_string "format" r.query)
            ∷ [])
          (λ out. Read (binder.bind_int "count" r.query) λ count.
            Read
              (binder.bind_string "format" r.query)
              λ format. Draws source (UuidAnswer count format) s out)
          (Wrapper.generate_uuid (wrapper_of (server lib source srv)) binder r w s)
  unfolding Wrapper.generate_uuid generate_uuid
  uuid_endpoint given = reads r w s (server lib source srv) "count" _ _ _ _ λ count.
      reads r w s (server lib source srv) "format" [] _ _ _ λ format.
        let k = default_ptr count (pos 1) in
        let f = default_ptr format "standard" in
        good_query (
          run_gen-Draws source (UuidAnswer count format) _ r w s (
            answer-Yields text w r _ (TakesUuid k f) _ (generate_uuids lib.new_uuid lib.quote k f)
              (Yields-regroup (generate_uuids-Yields lib.new_uuid lib.quote k f given))))

  abbrev pub ColorAnswer : Option ℤ → Option String → Response → Type 0
  ColorAnswer count format =
      let k = default_ptr count (pos 1) in
      let f = default_ptr format "hex" in
      Answered text w r (("count", int k) ∷ ("format", text f) ∷ []) (TakesColor k f)
        (Counted k (IsSomeColor lib.floats f))

  -- The route /api/v1/color answers 400 and changes nothing where a parameter of the query cannot be
  -- read, with the first such parameter; else it answers 200 with the count that was asked for of
  -- colors in the format that was asked for, or 400 where there is no such count or format, and takes
  -- numbers from the source and changes nothing else.
  pub color_endpoint :
      Reads r w s
        (error_of "format" (binder.bind_string "format" r.query)
          ∷ error_of "count" (binder.bind_int "count" r.query)
          ∷ [])
        (λ out. Read (binder.bind_string "format" r.query) λ format.
          Read
            (binder.bind_int "count" r.query)
            λ count. Draws source (ColorAnswer count format) s out)
        (Wrapper.generate_color (wrapper_of (server lib source srv)) binder r w s)
  unfolding Wrapper.generate_color generate_color
  color_endpoint = reads r w s (server lib source srv) "format" _ _ _ _ λ format.
      reads r w s (server lib source srv) "count" [] _ _ _ λ count.
        let k = default_ptr count (pos 1) in
        let f = default_ptr format "hex" in
        good_query (
          run_gen-Draws source (ColorAnswer count format) _ r w s (
            answer-Yields text w r _ (TakesColor k f) _ (random_colors lib.floats lib.quote k f)
              (Yields-regroup (random_colors-Yields lib.floats lib.quote k f))))
