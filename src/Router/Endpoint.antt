-- ===== src/Router/Endpoint.antt =====
-- Endpoints from the query to the answer: the binding of the parameters, the handler of
-- api/internal/handler/server.go and the service, as the router of router.go serves them.
pub mod Texts
mod Tests
use zaas.Prelude.{◌≡◌, refl, String, Bool, false, [], ◌∷◌, Option, none, some, if◌then◌else◌}
use zaas.Prelude.Int.{ℤ, pos}
use zaas.Prelude.Lens.{Lens}
use zaas.Http.{Request, Response, Handler, int, boolean}
use zaas.OpenApi.{ParamError, required_param, invalid_param_format, ServerInterface}
use zaas.OpenApi.Wrapper.{Bound, bound, is_required, malformed, QueryBinder, with_param}
use zaas.OpenApi.Wrapper
use zaas.Service.Gen.{Source, Run, done, failed, panicked, Gen}
use zaas.Service.Gen.Yields.{Yields, Ends}
use zaas.Service.Number.Laws.{DiceParams, IsBetween}
use zaas.Service.Float.Rounds.{Rounds}
use zaas.Service.Coordinates.{random_coordinates}
use zaas.Service.Coordinates.Laws.{IsOnEarth, IsOnLand, random_coordinates-Yields}
use zaas.Handlers.Auth.{Server}
use zaas.Handlers.Respond.{default_ptr}
use zaas.Handlers.Endpoints.{roll_dice_handler}
use zaas.Handlers.Endpoints.Floats.{generate_coordinates, coordinate_json}
use zaas.Handlers.Endpoints.Answers.{
  Answered, Counted, roll_dice_handler-Yields, answer-Yields, Yields-regroup,
}
use zaas.Handlers.Server.{Libraries, finish, run_gen, server}
use zaas.Router.{wrapper_of}
use zaas.Router.Query.{error_of, Read, Reads, good_query, reads}

module _ {S : Type 0} (source : Lens S Source) where
  -- An answer with `P`, that has drawn numbers and changed nothing else.
  abbrev pub Draws : (Response → Type 0) → S → Response × S → Type 0
  Draws P s out = P out.0 × ((g : Source) × (out.1 ≡ source.put g s))

  finish-Draws :
      (P : Response → Type 0) (s : S) (m : Run Response)
      → Ends P (λ e. ⊥) m
      → Draws P s (finish source s m)
  finish-Draws P s (done w g) h = (h, (g, refl))
  finish-Draws P s (failed e g) h = elim h [ ]
  finish-Draws P s panicked h = elim h [ ]

  pub run_gen-Draws :
      (P : Response → Type 0) (h : Response → Request → Gen Response) (r : Request) (w : Response)
      (s : S)
      → Yields P (λ e. ⊥) (h w r)
      → Draws P s (run_gen source h r w s)
  unfolding run_gen
  run_gen-Draws P h r w s y = finish-Draws P s (h w r (source.get s)) (y.at (source.get s))

module _ {S : Type 0} (lib : Libraries) (source : Lens S Source) (srv : Server S)
    (binder : QueryBinder) (r : Request) (w : Response) (s : S) where
  -- The answer to a request for dice.
  abbrev pub DiceAnswer : Option ℤ → Option ℤ → Response → Type 0
  DiceAnswer sides count =
      let n = default_ptr sides (pos 6) in
      let k = default_ptr count (pos 1) in
      Answered int w r (("sides", int n) ∷ ("count", int k) ∷ []) (DiceParams n k)
        (Counted k (IsBetween (pos 1) n))

  -- The route /api/v1/dice answers 400 and changes nothing where a parameter of the query cannot be
  -- read, with the first such parameter; else it answers 200 with the count that was asked for of
  -- numbers from 1 to the sides, or 400 where there is no such die or count, and takes numbers from
  -- the source and changes nothing else.
  pub dice_endpoint :
      Reads r w s
        (error_of "sides" (binder.bind_int "sides" r.query)
          ∷ error_of "count" (binder.bind_int "count" r.query)
          ∷ [])
        (λ out. Read (binder.bind_int "sides" r.query) λ sides.
          Read
            (binder.bind_int "count" r.query)
            λ count. Draws source (DiceAnswer sides count) s out)
        (Wrapper.roll_dice (wrapper_of (server lib source srv)) binder r w s)
  unfolding Wrapper.roll_dice
  dice_endpoint = reads r w s (server lib source srv) "sides" _ _ _ _ λ sides.
      reads r w s (server lib source srv) "count" [] _ _ _ λ count. good_query (
        run_gen-Draws source (DiceAnswer sides count) (roll_dice_handler sides count) r w s
          (roll_dice_handler-Yields sides count w r))

  module _ (laws : Rounds lib.floats) where
    -- The answer to a request for coordinates.
    abbrev pub PlacesAnswer : Option ℤ → Option Bool → Response → Type 0
    PlacesAnswer count land_only =
        let k = default_ptr count (pos 1) in
        let land = default_ptr land_only false in
        Answered (coordinate_json lib.floats lib.decimal) w r
          (("count", int k) ∷ ("land_only", boolean land) ∷ []) (IsBetween (pos 1) (pos 100) k)
          (Counted k (if land then IsOnLand lib.floats else IsOnEarth lib.floats))

    -- The route /api/v1/coordinates answers 400 and changes nothing where a parameter of the query
    -- cannot be read; else it answers 200 with the count that was asked for of coordinates on earth,
    -- for land in one of the boxes, or 400 where the count is not from 1 to 100, and takes numbers
    -- from the source and changes nothing else.
    pub coordinates_endpoint :
        Reads r w s
          (error_of "count" (binder.bind_int "count" r.query)
            ∷ error_of "land_only" (binder.bind_bool "land_only" r.query)
            ∷ [])
          (λ out. Read (binder.bind_int "count" r.query) λ count.
            Read
              (binder.bind_bool "land_only" r.query)
              λ land_only. Draws source (PlacesAnswer count land_only) s out)
          (Wrapper.generate_coordinates (wrapper_of (server lib source srv)) binder r w s)
    unfolding Wrapper.generate_coordinates generate_coordinates
    coordinates_endpoint = reads r w s (server lib source srv) "count" _ _ _ _ λ count.
        reads r w s (server lib source srv) "land_only" [] _ _ _ λ land_only.
          let k = default_ptr count (pos 1) in
          let land = default_ptr land_only false in
          good_query (
            run_gen-Draws source (PlacesAnswer count land_only) _ r w s (
              answer-Yields (coordinate_json lib.floats lib.decimal) w r _
                (IsBetween (pos 1) (pos 100) k)
                (Counted k (if land then IsOnLand lib.floats else IsOnEarth lib.floats))
                (random_coordinates lib.floats k land)
                (Yields-regroup (random_coordinates-Yields lib.floats laws k land))))
