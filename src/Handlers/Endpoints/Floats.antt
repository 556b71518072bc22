-- ===== src/Handlers/Endpoints/Floats.antt =====
-- The endpoints of api/internal/handler/server.go that give floats: `GenerateNumber`, in full, and
-- `GenerateCoordinates`. `decimal` is how the encoder writes a float.
use zaas.Prelude.{String, true, false, [], ◌∷◌, Option, if◌then◌else◌}
use zaas.Prelude.Int.{ℤ, pos}
use zaas.Http.{Request, Response, Json, int, boolean, float, coordinate}
use zaas.OpenApi.{GenerateNumberParams, GenerateCoordinatesParams}
use zaas.Service.Gen.{Gen}
use zaas.Service.Float.{Float64}
use zaas.Service.Number.{random_floats}
use zaas.Service.Coordinates.{Coordinate, random_coordinates}
use zaas.Handlers.Respond.{default_ptr}
use zaas.Handlers.Endpoints.{answer, generate_ints}

module _ (fl : Float64) (decimal : fl.F → String) where
  abbrev pub float_json : fl.F → Json
  float_json x = float (decimal x)

  abbrev pub coordinate_json : Coordinate fl → Json
  coordinate_json c = coordinate (decimal c.lat) (decimal c.lon)

  unfoldable pub generate_floats :
      Option ℤ → Option ℤ → Option ℤ → Response → Request → Gen Response
  unfolding answer random_floats
  generate_floats min max count w r =
      let lo = default_ptr min (pos 0) in
      let hi = default_ptr max (pos 100) in
      let k = default_ptr count (pos 1) in
      answer float_json w r
        (("min", int lo) ∷ ("max", int hi) ∷ ("count", int k) ∷ ("float", boolean true) ∷ [])
        (random_floats fl (fl.of_int lo) (fl.of_int hi) k)

  unfoldable pub generate_number : GenerateNumberParams → Response → Request → Gen Response
  unfolding generate_floats generate_ints
  generate_number params w r =
      if default_ptr params.float false
      then generate_floats params.min params.max params.count w r
      else generate_ints params.min params.max params.count w r

  unfoldable pub generate_coordinates :
      GenerateCoordinatesParams → Response → Request → Gen Response
  unfolding answer random_coordinates
  generate_coordinates params w r =
      let k = default_ptr params.count (pos 1) in
      let land_only = default_ptr params.land_only false in
      answer coordinate_json w r (("count", int k) ∷ ("land_only", boolean land_only) ∷ [])
        (random_coordinates fl k land_only)
