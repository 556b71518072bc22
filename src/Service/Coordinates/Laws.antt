-- ===== src/Service/Coordinates/Laws.antt =====
-- Where the coordinates of api/internal/service/coordinates.go lie.
use zaas.Prelude.{
  ℕ, zero, suc, ◌≤◌, ◌≡◌, Bool, true, false, List, [], ◌∷◌, some, length, get_elem?, All, arith,
  if◌then◌else◌,
}
use zaas.Prelude.Int.{ℤ, pos, negsuc, ◌-ℤ◌}
use zaas.Service.Gen.{ServiceError}
use zaas.Service.Gen.Yields.{Yields, Yields-pure, Yields-bind, Yields-weaken, Yields-pick}
use zaas.Service.Number.Laws.{IsBetween, Yields-check_count, Yields-repeat}
use zaas.Service.Float.{Float64, scale}
use zaas.Service.Float.Rounds.{
  IsExact, IsUnitFraction, Within, Rounds, Yields-float64, scale-between, shift-between,
}
use zaas.Service.Coordinates.{
  Bbox, land_boxes, minus, Coordinate, spread, random_coordinate, in_box, random_land_coordinate,
  random_coordinates,
}

-- A box of whole degrees.
pub record IsBox (box : Bbox) : Type 0 where
  pub south : IsBetween (minus 90) (pos 90) box.lat_min
  pub north : IsBetween box.lat_min (pos 90) box.lat_max
  pub west : IsBetween (minus 180) (pos 180) box.lon_min
  pub east : IsBetween box.lon_min (pos 180) box.lon_max

land_boxes-IsBox : All IsBox land_boxes
land_boxes-IsBox = omega arith

All-get_elem? :
    {A : Type 0} (P : A → Type 0) (xs : List A) (i : ℕ) (a : A)
    → All P xs
    → get_elem? xs i ≡ some a
    → P a
All-get_elem? P [] i a h e = cc
All-get_elem? P (x ∷ xs) zero a h e = ground (arith, h.0)
All-get_elem? P (x ∷ xs) (suc i) a h e = All-get_elem? P xs i a h.1 e

degrees-IsExact : (a : ℤ) → IsBetween (minus 180) (pos 180) a → IsExact a
degrees-IsExact (pos n) h = omega arith
degrees-IsExact (negsuc n) h = omega arith

span-IsExact :
    (lo hi : ℤ)
    → IsBetween (minus 180) (pos 180) lo
    → IsBetween lo (pos 180) hi
    → IsExact (hi -ℤ lo)
unfolding ◌-ℤ◌
span-IsExact lo hi h k = ground (arith, degrees-IsExact lo h)

module _ (fl : Float64) where
  pub record IsOnEarth (c : Coordinate fl) : Type 0 where
    pub latitude : Within fl (minus 90) (pos 90) c.lat
    pub longitude : Within fl (minus 180) (pos 180) c.lon

  pub record IsIn (box : Bbox) (c : Coordinate fl) : Type 0 where
    pub latitude : Within fl box.lat_min box.lat_max c.lat
    pub longitude : Within fl box.lon_min box.lon_max c.lon

  -- In one of the boxes of the source.
  abbrev pub IsOnLand : Coordinate fl → Type 0
  IsOnLand c = (box : Bbox) × (i : ℕ) × (get_elem? land_boxes i ≡ some box) × IsIn box c

  module _ (laws : Rounds fl) where
    scale-Within :
        (lo hi : ℤ) (u : fl.F)
        → IsBetween (minus 180) (pos 180) lo
        → IsBetween lo (pos 180) hi
        → IsUnitFraction fl u
        → Within fl lo hi (scale fl (fl.of_int lo) (fl.of_int hi) u)
    scale-Within lo hi u low high (k, bits, e) = rw e (
        scale-between fl laws lo hi k (degrees-IsExact lo low)
          (degrees-IsExact hi (omega arith, high.1)) (span-IsExact lo hi low high) high.0 bits)

    spread-Within :
        (span offset : ℕ) (u : fl.F)
        → span ≤ 360
        → offset ≤ 360
        → IsUnitFraction fl u
        → Within fl (pos 0 -ℤ pos offset) (pos span -ℤ pos offset) (spread fl span offset u)
    spread-Within span offset u hs ho (k, bits, e) =
        rw e (shift-between fl laws span offset k (omega arith) (omega arith) bits)

    module _ {Q : ServiceError → Type 0} where
      random_coordinate-Yields : Yields IsOnEarth Q (random_coordinate fl)
      unfolding random_coordinate ◌-ℤ◌
      random_coordinate-Yields = Yields-bind _ _ (Yields-float64 fl) λ u hu.
          Yields-bind _ _ (Yields-float64 fl) λ v hv.
            Yields-pure (record { lat = spread fl 180 90 u; lon = spread fl 360 180 v })
              (record {
                latitude = spread-Within 180 90 u (omega arith) (omega arith) hu;
                longitude = spread-Within 360 180 v (omega arith) (omega arith) hv;
              })

      in_box-Yields : (box : Bbox) → IsBox box → Yields (IsIn box) Q (in_box fl box)
      unfolding in_box
      in_box-Yields box b = Yields-bind _ _ (Yields-float64 fl) λ u hu.
          Yields-bind _ _ (Yields-float64 fl) λ v hv. Yields-pure _ (record {
            latitude = scale-Within box.lat_min box.lat_max u (omega arith) (omega arith) hu;
            longitude = scale-Within box.lon_min box.lon_max v b.west b.east hv;
          })

      random_land_coordinate-Yields : Yields IsOnLand Q (random_land_coordinate fl)
      unfolding random_land_coordinate
      random_land_coordinate-Yields = Yields-bind _ _ (Yields-pick land_boxes tt) λ box (i, e).
          Yields-weaken _ (λ c h. (box, i, e, h))
            (in_box-Yields box (All-get_elem? IsBox land_boxes i box land_boxes-IsBox e))

    -- `RandomCoordinates` returns the count that was asked for, exactly where it is from 1 to 100,
    -- of coordinates from -90 to 90 and -180 to 180 degrees, and for land of coordinates in one of
    -- the six boxes; else it returns an error. It never panics.
    pub random_coordinates-Yields :
        (count : ℤ) (land_only : Bool)
        → Yields
            (λ cs.
              IsBetween (pos 1) (pos 100) count
              × (pos (length cs) ≡ count)
              × All (if land_only then IsOnLand else IsOnEarth) cs)
            (λ e. IsBetween (pos 1) (pos 100) count → ⊥)
            (random_coordinates fl count land_only)
    unfolding random_coordinates
    random_coordinates-Yields count land_only =
        Yields-bind _ _ (Yields-check_count count 100 (λ bad e h. bad h)) λ _ counted.
          Yields-weaken _ (λ cs h. (counted, h.0, h.1))
            (Yields-repeat (if land_only then IsOnLand else IsOnEarth)
              (if land_only then random_land_coordinate fl else random_coordinate fl) count counted
              (chosen land_only))
      where
        chosen :
            (b : Bool)
            → Yields
                (if b then IsOnLand else IsOnEarth)
                (λ e. IsBetween (pos 1) (pos 100) count → ⊥)
                (if b then random_land_coordinate fl else random_coordinate fl)
        chosen true = random_land_coordinate-Yields
        chosen false = random_coordinate-Yields
