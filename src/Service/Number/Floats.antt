-- ===== src/Service/Number/Floats.antt =====
-- `RandomFloats` of api/internal/service/number.go between whole numbers, which is how the endpoint
-- calls it.
use zaas.Prelude.{◌≡◌, length, All, arith}
use zaas.Prelude.Int.{ℤ, pos, ◌-ℤ◌, ◌≤ℤ◌}
use zaas.Service.Gen.Yields.{Yields, Yields-pure, Yields-bind, Yields-weaken, Yields-refuse_if}
use zaas.Service.Float.{Float64, scale}
use zaas.Service.Float.Rounds.{
  IsExact, IsUnitFraction, Within, Rounds, Yields-float64, scale-between,
}
use zaas.Service.Number.{random_floats}
use zaas.Service.Number.Laws.{IsBetween, Yields-check_count, Yields-repeat}

module _ (fl : Float64) (laws : Rounds fl) where
  scale-Within :
      (lo hi : ℤ) (u : fl.F)
      → IsExact lo
      → IsExact hi
      → IsExact (hi -ℤ lo)
      → lo ≤ℤ hi
      → IsUnitFraction fl u
      → Within fl lo hi (scale fl (fl.of_int lo) (fl.of_int hi) u)
  scale-Within lo hi u low high near le (k, bits, e) =
      rw e (scale-between fl laws lo hi k low high near le bits)

  -- Between whole numbers that float64 holds exactly, as well as their distance, `RandomFloats`
  -- returns the count that was asked for of numbers from `lo` to `hi`, exactly where `lo <= hi` and
  -- the count is from 1 to 100; else it returns an error. It never panics.
  pub random_floats-Yields :
      (lo hi count : ℤ)
      → IsExact lo
      → IsExact hi
      → IsExact (hi -ℤ lo)
      → Yields
          (λ xs.
            ((lo ≤ℤ hi) × IsBetween (pos 1) (pos 100) count)
            × (pos (length xs) ≡ count)
            × All (Within fl lo hi) xs)
          (λ e. ((lo ≤ℤ hi) × IsBetween (pos 1) (pos 100) count) → ⊥)
          (random_floats fl (fl.of_int lo) (fl.of_int hi) count)
  unfolding random_floats
  random_floats-Yields lo hi count low high near =
      let less = laws.less_exact hi lo high low in
      Yields-bind _ _ (Yields-refuse_if _ _ (λ out h. ground (arith, less, h.0))) λ _ ordered.
        Yields-bind _ _ (Yields-check_count count 100 (λ bad e h. bad h.1)) λ _ counted.
          let le : lo ≤ℤ hi = ground (arith, less) in
          Yields-weaken _ (λ xs h. ((le, counted), h.0, h.1))
            (Yields-repeat (Within fl lo hi) _ count counted (
              Yields-bind _ _ (Yields-float64 fl) λ u hu.
                Yields-pure (scale fl (fl.of_int lo) (fl.of_int hi) u)
                  (scale-Within lo hi u low high near le hu)))
