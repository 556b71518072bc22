-- ===== src/Service/Number.antt =====
-- api/internal/service/number.go, dice.go and coin.go. The sums of `RandomInts` stay within the bounds that were checked, so `int` does not wrap.
pub mod Laws
pub mod Floats
use zaas.Prelude.{ℕ, String, Bool, ◌&&◌, ◌||◌, not, ◌-◌, List, [], ◌∷◌, if◌then◌else◌}
use zaas.Prelude.Int.{ℤ, pos, negsuc, ◌+ℤ◌, ◌-ℤ◌, ltb_ℤ, eq_ℤ}
use zaas.Prelude.Text.{◌^^◌, show}
use zaas.Service.Float.{Float64, float64, scale}
use zaas.Service.Gen.{
  errorf, plain, err_bounds_exceeded, err_min_greater_than_max, err_count_out_of_range,
  err_invalid_sides, Gen, pure, ◌>>=◌, ◌>>◌, refuse_if, int_n, make_with,
}

abbrev pub max_bound : ℕ
max_bound = 1_000_000_000

-- `count < 1 || count > max`
abbrev pub is_out_of_range : ℤ → ℕ → Bool
is_out_of_range count max = ltb_ℤ count (pos 1) || ltb_ℤ (pos max) count

-- The refusal of a count that is not between 1 and `max`.
unfoldable pub check_count : ℤ → ℕ → Gen (Unit {0})
check_count count max = refuse_if (is_out_of_range count max) (
    errorf err_count_out_of_range
      ("count must be between 1 and " ^^ show (pos max) ^^ "; got " ^^ show count))

unfoldable pub validate_number_params : ℤ → ℤ → ℤ → Gen (Unit {0})
unfolding check_count ◌>>=◌
validate_number_params lo hi count = do
  refuse_if (ltb_ℤ lo (negsuc (max_bound - 1)) || ltb_ℤ (pos max_bound) hi)
      (errorf err_bounds_exceeded ("min and max must be within ±" ^^ show (pos max_bound)))
  refuse_if (ltb_ℤ hi lo)
      (errorf err_min_greater_than_max ("got min=" ^^ show lo ^^ " max=" ^^ show hi))
  check_count count 100

unfoldable pub random_ints : ℤ → ℤ → ℤ → Gen (List ℤ)
unfolding validate_number_params ◌>>=◌ int_n make_with
random_ints lo hi count = do
  validate_number_params lo hi count
  make_with count λ i. do x ← int_n (hi -ℤ lo +ℤ pos 1); pure (lo +ℤ x)

-- `validSides`
abbrev pub is_valid_sides : ℤ → Bool
is_valid_sides sides =
    eq_ℤ sides (pos 4)
    || eq_ℤ sides (pos 6)
    || eq_ℤ sides (pos 8)
    || eq_ℤ sides (pos 10)
    || eq_ℤ sides (pos 12)
    || eq_ℤ sides (pos 20)
    || eq_ℤ sides (pos 100)

unfoldable pub roll_dice : ℤ → ℤ → Gen (List ℤ)
unfolding check_count ◌>>=◌ int_n make_with
roll_dice sides count = do
  refuse_if (not (is_valid_sides sides))
      (errorf err_invalid_sides ("sides must be one of 4,6,8,10,12,20,100; got " ^^ show sides))
  check_count count 100
  make_with count λ i. do x ← int_n sides; pure (x +ℤ pos 1)

unfoldable pub flip_coin : Gen String
unfolding ◌>>=◌ int_n
flip_coin = do x ← int_n (pos 2); pure (if eq_ℤ x (pos 0) then "heads" else "tails")

module _ (fl : Float64) where
  unfoldable pub random_floats : fl.F → fl.F → ℤ → Gen (List fl.F)
  unfolding check_count ◌>>=◌ make_with float64
  random_floats lo hi count = do
    refuse_if (fl.is_less hi lo) (plain err_min_greater_than_max)
    check_count count 100
    make_with count λ i. do u ← float64 fl; pure (scale fl lo hi u)
