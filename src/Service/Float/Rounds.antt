-- ===== src/Service/Float/Rounds.antt =====
-- What the code relies on of the arithmetic of `float64`: integers of at most 53 bits are exact, and
-- rounding keeps the order.
use zaas.Prelude.{ℕ, ◌%◌, ◌≤◌, ◌<◌, ◌≡◌, refl, subst, ap, ◌∙◌, ◌⊎◌, true, arith}
use zaas.Prelude.Int.{ℤ, ltb_ℤ, pos, pos_part, neg_part, ◌+ℤ◌, ◌-ℤ◌, ◌≤ℤ◌, int_laws, eq_of_parts}
use zaas.Service.Gen.{ServiceError}
use zaas.Service.Gen.Yields.{Yields}
use zaas.Service.Float.{Float64, two_53, unit_fraction, float64, scale}
use native.Mathlib.Omega.{mod_fact}

-- Not more than 2 to the power of 53, in either direction.
abbrev pub IsExact : ℤ → Type 0
IsExact n = (pos_part n ≤ two_53) × (neg_part n ≤ two_53)

-- `a <= b`, which fails where one of them is not a number.
abbrev pub AtMost : (fl : Float64) → fl.F → fl.F → Type 0
AtMost fl a b = (fl.is_less a b ≡ true) ⊎ (fl.is_equal a b ≡ true)

-- `lo <= x && x <= hi`, for whole numbers
abbrev pub Within : (fl : Float64) → ℤ → ℤ → fl.F → Type 0
Within fl lo hi x = AtMost fl (fl.of_int lo) x × AtMost fl x (fl.of_int hi)

pub record Rounds (fl : Float64) : Type 0 where
  pub less_exact :
      (a b : ℤ) → IsExact a → IsExact b → fl.is_less (fl.of_int a) (fl.of_int b) ≡ ltb_ℤ a b
  pub same : (a : ℤ) → IsExact a → AtMost fl (fl.of_int a) (fl.of_int a)
  pub unit :
      (k : ℕ)
      → k < two_53
      → AtMost fl (fl.of_int (pos 0)) (unit_fraction fl k)
        × AtMost fl (unit_fraction fl k) (fl.of_int (pos 1))
  pub minus_exact :
      (a b : ℤ)
      → IsExact a
      → IsExact b
      → IsExact (a -ℤ b)
      → fl.minus (fl.of_int a) (fl.of_int b) ≡ fl.of_int (a -ℤ b)
  pub plus_exact :
      (a b : ℤ)
      → IsExact a
      → IsExact b
      → IsExact (a +ℤ b)
      → fl.plus (fl.of_int a) (fl.of_int b) ≡ fl.of_int (a +ℤ b)
  pub times_zero :
      (n : ℕ) → n ≤ two_53 → fl.times (fl.of_int (pos 0)) (fl.of_int (pos n)) ≡ fl.of_int (pos 0)
  pub times_one :
      (n : ℕ) → n ≤ two_53 → fl.times (fl.of_int (pos 1)) (fl.of_int (pos n)) ≡ fl.of_int (pos n)
  -- Between 0 and 1 the product with an integer that is not negative keeps the order.
  pub times_mono :
      (u v : fl.F) (n : ℕ)
      → n ≤ two_53
      → AtMost fl (fl.of_int (pos 0)) u
      → AtMost fl u v
      → AtMost fl v (fl.of_int (pos 1))
      → AtMost fl (fl.times u (fl.of_int (pos n))) (fl.times v (fl.of_int (pos n)))
  pub plus_mono :
      (a : ℤ) (x y : fl.F)
      → IsExact a
      → AtMost fl x y
      → AtMost fl (fl.plus (fl.of_int a) x) (fl.plus (fl.of_int a) y)
  pub minus_mono :
      (a : ℤ) (x y : fl.F)
      → IsExact a
      → AtMost fl x y
      → AtMost fl (fl.minus x (fl.of_int a)) (fl.minus y (fl.of_int a))

plus_minus : (a b : ℤ) → a ≤ℤ b → a +ℤ pos (pos_part (b -ℤ a)) ≡ b
unfolding ◌+ℤ◌ ◌-ℤ◌
plus_minus a b h = ground arith

module _ (fl : Float64) (laws : Rounds fl) (lo hi : ℤ) (k : ℕ) (low : IsExact lo)
    (high : IsExact hi) (near : IsExact (hi -ℤ lo)) (le : lo ≤ℤ hi) (bits : k < two_53) where
  -- The distance.
  d : ℕ
  d = pos_part (hi -ℤ lo)

  u : fl.F
  u = unit_fraction fl k

  span : hi -ℤ lo ≡ pos d
  unfolding d ◌-ℤ◌
  span = ground arith

  scaled :
      scale fl (fl.of_int lo) (fl.of_int hi) u
      ≡ fl.plus (fl.of_int lo) (fl.times u (fl.of_int (pos d)))
  scaled =
      ap (λ x. fl.plus (fl.of_int lo) (fl.times u x))
        (laws.minus_exact hi lo high low near ∙ ap fl.of_int span)

  low_end : fl.plus (fl.of_int lo) (fl.times (fl.of_int (pos 0)) (fl.of_int (pos d))) ≡ fl.of_int lo
  unfolding d
  low_end =
      let there : lo +ℤ pos 0 ≡ lo = eq_of_parts (lo +ℤ pos 0) lo (omega int_laws) in
      ap (fl.plus (fl.of_int lo)) (laws.times_zero d near.0)
      ∙ laws.plus_exact lo (pos 0) low (omega arith) (rw there low)
      ∙ ap fl.of_int there

  high_end :
      fl.plus (fl.of_int lo) (fl.times (fl.of_int (pos 1)) (fl.of_int (pos d))) ≡ fl.of_int hi
  unfolding d
  high_end =
      let there : lo +ℤ pos (pos_part (hi -ℤ lo)) ≡ hi = plus_minus lo hi le in
      ap (fl.plus (fl.of_int lo)) (laws.times_one d near.0)
      ∙ laws.plus_exact lo (pos d) low (near.0, (omega arith)) (rw there high)
      ∙ ap fl.of_int there

  -- Between two integers of at most 53 bits, and no more apart, the scaled fraction lies between
  -- them.
  pub scale-between :
      AtMost fl (fl.of_int lo) (scale fl (fl.of_int lo) (fl.of_int hi) (unit_fraction fl k))
      × AtMost fl (scale fl (fl.of_int lo) (fl.of_int hi) (unit_fraction fl k)) (fl.of_int hi)
  unfolding d u
  scale-between = rw scaled (
    subst (λ x. AtMost fl x (fl.plus (fl.of_int lo) (fl.times u (fl.of_int (pos d))))) low_end
        (laws.plus_mono lo _ _ low (
          laws.times_mono _ u d near.0 (laws.same (pos 0) (omega arith)) (laws.unit k bits).0
            (laws.unit k bits).1)),
    subst (λ x. AtMost fl (fl.plus (fl.of_int lo) (fl.times u (fl.of_int (pos d)))) x) high_end
        (laws.plus_mono lo _ _ low (
          laws.times_mono u _ d near.0 (laws.unit k bits).0 (laws.unit k bits).1
            (laws.same (pos 1) (omega arith)))),
  )

module _ (fl : Float64) (laws : Rounds fl) (span offset : ℕ) (k : ℕ) (wide : span ≤ two_53)
    (far : offset ≤ two_53) (bits : k < two_53) where
  u' : fl.F
  u' = fl.times (unit_fraction fl k) (fl.of_int (pos span))

  -- The fraction of a span from 0, moved down.
  pub shift-between :
      AtMost fl
        (fl.of_int (pos 0 -ℤ pos offset))
        (fl.minus (fl.times (unit_fraction fl k) (fl.of_int (pos span))) (fl.of_int (pos offset)))
      × AtMost fl
          (fl.minus (fl.times (unit_fraction fl k) (fl.of_int (pos span))) (fl.of_int (pos offset)))
          (fl.of_int (pos span -ℤ pos offset))
  unfolding u' ◌-ℤ◌
  shift-between = (
    subst (λ x. AtMost fl x (fl.minus u' (fl.of_int (pos offset))))
        (ap (λ x. fl.minus x (fl.of_int (pos offset))) (laws.times_zero span wide)
          ∙ laws.minus_exact (pos 0) (pos offset) (omega arith) (far, (omega arith)) (ground arith))
        (laws.minus_mono (pos offset) _ _ (far, (omega arith))
          (laws.times_mono _ (unit_fraction fl k) span wide (laws.same (pos 0) (omega arith))
            (laws.unit k bits).0 (laws.unit k bits).1)),
    subst (λ x. AtMost fl (fl.minus u' (fl.of_int (pos offset))) x)
        (ap (λ x. fl.minus x (fl.of_int (pos offset))) (laws.times_one span wide)
          ∙ laws.minus_exact (pos span) (pos offset) (wide, (omega arith)) (far, (omega arith))
              (ground arith))
        (laws.minus_mono (pos offset) _ _ (far, (omega arith))
          (laws.times_mono (unit_fraction fl k) _ span wide (laws.unit k bits).0
            (laws.unit k bits).1 (laws.same (pos 1) (omega arith)))),
  )

-- A number that `rand.Float64()` may give.
abbrev pub IsUnitFraction : (fl : Float64) → fl.F → Type 0
IsUnitFraction fl u = (k : ℕ) × (k < two_53) × (u ≡ unit_fraction fl k)

pub Yields-float64 :
    {Q : ServiceError → Type 0} (fl : Float64) → Yields (IsUnitFraction fl) Q (float64 fl)
unfolding float64
Yields-float64 fl = record {
  at = λ g. (g.draws g.taken % two_53, mod_fact (g.draws g.taken) 9_007_199_254_740_991, refl);
}
