-- ===== src/Service/Coordinates.antt =====
-- api/internal/service/coordinates.go. The arithmetic of `float64` is the interface `Float64`.
pub mod Laws
use zaas.Prelude.{ℕ, zero, suc, Bool, ◌-◌, List, [], ◌∷◌, if◌then◌else◌}
use zaas.Prelude.Int.{ℤ, pos, negsuc}
use zaas.Service.Float.{Float64, float64, scale}
use zaas.Service.Gen.{Gen, pure, ◌>>=◌, ◌>>◌, make_with, pick}
use zaas.Service.Number.{check_count}

-- The literals of the source are integers.
pub record Bbox : Type 0 where
  pub lat_min : ℤ
  pub lat_max : ℤ
  pub lon_min : ℤ
  pub lon_max : ℤ

abbrev pub bbox : ℤ → ℤ → ℤ → ℤ → Bbox
bbox lat_min lat_max lon_min lon_max = record {
  lat_min = lat_min;
  lat_max = lat_max;
  lon_min = lon_min;
  lon_max = lon_max;
}

-- -n, for n from 1 on
abbrev pub minus : ℕ → ℤ
minus n = negsuc (n - 1)

abbrev pub land_boxes : List Bbox
land_boxes =
    bbox (pos 35) (pos 72) (minus 10) (pos 60)
    ∷ bbox (minus 35) (pos 38) (minus 18) (pos 52)
    ∷ bbox (pos 5) (pos 78) (pos 60) (pos 180)
    ∷ bbox (minus 45) (minus 10) (pos 110) (pos 155)
    ∷ bbox (pos 15) (pos 75) (minus 170) (minus 50)
    ∷ bbox (minus 55) (pos 15) (minus 82) (minus 34)
    ∷ []

module _ (fl : Float64) where
  pub record Coordinate : Type 0 where
    pub lat : fl.F
    pub lon : fl.F

  -- `x*span - offset`
  abbrev pub spread : ℕ → ℕ → fl.F → fl.F
  spread span offset u = fl.minus (fl.times u (fl.of_int (pos span))) (fl.of_int (pos offset))

  unfoldable pub random_coordinate : Gen Coordinate
  unfolding ◌>>=◌ float64
  random_coordinate = do
    u ← float64 fl
    v ← float64 fl
    pure (record { lat = spread 180 90 u; lon = spread 360 180 v })

  unfoldable pub in_box : Bbox → Gen Coordinate
  unfolding ◌>>=◌ float64
  in_box box = do
    u ← float64 fl
    v ← float64 fl
    pure (record {
      lat = scale fl (fl.of_int box.lat_min) (fl.of_int box.lat_max) u;
      lon = scale fl (fl.of_int box.lon_min) (fl.of_int box.lon_max) v;
    })

  -- The loop of `randomLandCoordinate`, by the rounds left: its body returns.
  unfoldable pub land_loop : ℕ → Gen Coordinate
  unfolding random_coordinate in_box pick ◌>>=◌
  land_loop zero = random_coordinate
  land_loop (suc _) = do box ← pick land_boxes; in_box box

  unfoldable pub random_land_coordinate : Gen Coordinate
  unfolding land_loop
  random_land_coordinate = land_loop 20

  unfoldable pub random_coordinates : ℤ → Bool → Gen (List Coordinate)
  unfolding check_count ◌>>=◌ make_with random_coordinate random_land_coordinate
  random_coordinates count land_only = do
    check_count count 100
    make_with count λ i. if land_only then random_land_coordinate else random_coordinate
