-- ===== src/Service/Float.antt =====
-- What the services use of `float64`, whose arithmetic is an interface, and `rand.Float64` of
-- math/rand/v2.
pub mod Rounds
pub mod Whole
use zaas.Prelude.{ℕ, ◌%◌, Bool}
use zaas.Prelude.Int.{ℤ, pos}
use zaas.Service.Gen.{done, Gen, next_source}

-- Conversions, the four operations, and the comparisons.
pub record Float64 : Type 1 where
  pub F : Type 0
  pub of_int : ℤ → F
  pub trunc : F → ℤ
  pub plus : F → F → F
  pub minus : F → F → F
  pub times : F → F → F
  pub over : F → F → F
  pub is_less : F → F → Bool
  pub is_equal : F → F → Bool

-- 2 to the power of 53
abbrev pub two_53 : ℕ
two_53 = 9_007_199_254_740_992

module _ (fl : Float64) where
  -- `rand.Float64()`: 53 random bits over 2 to the power of 53
  abbrev pub unit_fraction : ℕ → fl.F
  unit_fraction k = fl.over (fl.of_int (pos k)) (fl.of_int (pos two_53))

  unfoldable pub float64 : Gen fl.F
  float64 g = done (unit_fraction (g.draws g.taken % two_53)) (next_source g)

  -- `lo + rand.Float64()*(hi-lo)`, at the fraction `u`
  abbrev pub scale : fl.F → fl.F → fl.F → fl.F
  scale lo hi u = fl.plus lo (fl.times u (fl.minus hi lo))
