-- ===== src/Service/Float/Whole.antt =====
-- The integers as a coarse arithmetic that satisfies what is asked of `float64`.
use native.Mathlib.Nat.{mul-le-mul_right}
use zaas.Prelude.{ap, ℕ, ◌≡◌, ◌<◌, ◌≤◌, ◌/◌, ◌*◌, inl, inr, refl, arith, Bool-cases}
use zaas.Prelude.Int.{ℤ, pos, negsuc, pos_part, ◌+ℤ◌, ◌-ℤ◌, ltb_ℤ, eq_ℤ, ◌≤ℤ◌, int_laws}
use zaas.Service.Float.{Float64, two_53}
use zaas.Service.Float.Rounds.{AtMost, Rounds}

abbrev pub whole : Float64
whole = record {
  F = ℤ;
  of_int = λ n. n;
  trunc = λ n. n;
  plus = λ x y. x +ℤ y;
  minus = λ x y. x -ℤ y;
  times = λ x y. pos (pos_part x * pos_part y);
  over = λ x y. pos (pos_part x / pos_part y);
  is_less = ltb_ℤ;
  is_equal = eq_ℤ;
}

AtMost-of_le : (x y : ℤ) → x ≤ℤ y → AtMost whole x y
AtMost-of_le x y h = elim (Bool-cases (ltb_ℤ x y)) [ inl e ↦ inl e | inr e ↦ inr (ground arith) ]

le_of_at_most : (x y : ℤ) → AtMost whole x y → x ≤ℤ y
le_of_at_most x y (inl h) = ground arith
le_of_at_most x y (inr h) = ground arith

no_part : (k : ℕ) → k < two_53 → k / two_53 ≡ 0
no_part k h = omega arith

pos_part-le : (x y : ℤ) → x ≤ℤ y → pos_part x ≤ pos_part y
pos_part-le (pos a) (pos b) h = omega arith
pos_part-le (pos a) (negsuc b) h = omega arith
pos_part-le (negsuc a) y h = omega arith

plus_keeps : (a x y : ℤ) → x ≤ℤ y → a +ℤ x ≤ℤ a +ℤ y
plus_keeps a x y h = omega int_laws

minus_keeps : (a x y : ℤ) → x ≤ℤ y → x -ℤ a ≤ℤ y -ℤ a
minus_keeps a x y h = omega int_laws

pub whole-Rounds : Rounds whole
whole-Rounds = record {
  less_exact = λ a b _ _. refl;
  same = λ a _. AtMost-of_le a a (omega arith);
  unit = λ k h.
      rw (no_part k h)
        (AtMost-of_le (pos 0) (pos 0) (omega arith), AtMost-of_le (pos 0) (pos 1) (omega arith));
  minus_exact = λ a b _ _ _. refl;
  plus_exact = λ a b _ _ _. refl;
  times_zero = λ n _. ap pos (omega arith);
  times_one = λ n _. ap pos (omega arith);
  times_mono = λ u v n _ _ le _.
      let step = le_of_at_most u v le in
      let product : pos_part u * n ≤ pos_part v * n = mul-le-mul_right n (pos_part-le u v step) in
      AtMost-of_le (pos (pos_part u * n)) (pos (pos_part v * n)) (omega arith);
  plus_mono = λ a x y _ h. AtMost-of_le (a +ℤ x) (a +ℤ y) (plus_keeps a x y (le_of_at_most x y h));
  minus_mono =
      λ a x y _ h. AtMost-of_le (x -ℤ a) (y -ℤ a) (minus_keeps a x y (le_of_at_most x y h));
}
