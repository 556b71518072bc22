-- ===== src/Service/Number/Laws.antt =====
-- The numbers, dice and coins that the services give.
use zaas.Prelude.{ℕ, ◌≡◌, ◌⊎◌, true, All, length, arith, if◌then◌else◌}
use zaas.Prelude.Int.{ℤ, pos, negsuc, ◌+ℤ◌, ◌-ℤ◌, ◌≤ℤ◌, +ℤ_parts, -ℤ_parts, eq_ℤ, int_laws}
use zaas.Service.Gen.{ServiceError, Gen, make_with}
use zaas.Service.Gen.Yields.{
  Yields, Yields-pure, Yields-bind, Yields-weaken, Yields-refuse_if, Yields-int_n, Yields-make_with,
  IsBelow, AllFrom-All,
}
use zaas.Service.Number.{
  max_bound, is_out_of_range, check_count, validate_number_params, random_ints, is_valid_sides,
  roll_dice, flip_coin,
}

abbrev pub IsBetween : ℤ → ℤ → ℤ → Type 0
IsBetween lo hi x = (lo ≤ℤ x) × (x ≤ℤ hi)

pub Yields-check_count :
    {Q : ServiceError → Type 0} (count : ℤ) (max : ℕ)
    → ((IsBetween (pos 1) (pos max) count → ⊥) → (e : ServiceError) → Q e)
    → Yields (λ _. IsBetween (pos 1) (pos max) count) Q (check_count count max)
unfolding check_count
Yields-check_count count max bad =
    Yields-weaken (check_count count max) (λ _ e. ground arith)
      (Yields-refuse_if (is_out_of_range count max) _ (λ e. bad (λ h. ground arith) _))

-- The count that was asked for, of elements with `P`.
pub Yields-repeat :
    {A : Type 0} {Q : ServiceError → Type 0} (P : A → Type 0) (m : Gen A) (count : ℤ)
    → IsBetween (pos 1) (pos 100) count
    → Yields P Q m
    → Yields (λ xs. (pos (length xs) ≡ count) × All P xs) Q (make_with count (λ i. m))
Yields-repeat P m count h y =
    Yields-weaken (make_with count (λ i. m)) (λ xs p. (p.0, AllFrom-All P 0 xs p.1))
      (Yields-make_with (λ i. P) (λ i. m) count (ground arith) (λ i. y))

-- The parameters that `RandomInts` takes.
pub record NumberParams (lo hi count : ℤ) : Type 0 where
  pub low : negsuc 999_999_999 ≤ℤ lo
  pub high : hi ≤ℤ pos max_bound
  pub ordered : lo ≤ℤ hi
  pub counted : IsBetween (pos 1) (pos 100) count

validate_number_params-Yields :
    (lo hi count : ℤ)
    → Yields
        (λ _. NumberParams lo hi count)
        (λ e. NumberParams lo hi count → ⊥)
        (validate_number_params lo hi count)
unfolding validate_number_params
validate_number_params-Yields lo hi count =
    Yields-bind _ _ (Yields-refuse_if _ _ (λ out p. ground (arith, p.low, p.high))) λ _ within.
      Yields-bind _ _ (Yields-refuse_if _ _ (λ out p. ground (arith, p.ordered))) λ _ ordered.
        Yields-weaken (check_count count 100)
          (λ _ counted. record {
            low = ground arith;
            high = ground arith;
            ordered = ground arith;
            counted = counted;
          })
          (Yields-check_count count 100 (λ bad e p. bad p.counted))

shifted : (lo hi x : ℤ) → lo ≤ℤ hi → IsBelow (hi -ℤ lo +ℤ pos 1) x → IsBetween lo hi (lo +ℤ x)
shifted lo hi x le (k, e, below) =
    rw e (grind (int_laws, +ℤ_parts lo (pos k), +ℤ_parts (hi -ℤ lo) (pos 1), -ℤ_parts hi lo))

-- `RandomInts` returns the count that was asked for, of numbers from `lo` to `hi`, exactly where
-- the parameters are in order; else it returns an error. It never panics.
pub random_ints-Yields :
    (lo hi count : ℤ)
    → Yields
        (λ xs. NumberParams lo hi count × (pos (length xs) ≡ count) × All (IsBetween lo hi) xs)
        (λ e. NumberParams lo hi count → ⊥)
        (random_ints lo hi count)
unfolding random_ints
random_ints-Yields lo hi count = Yields-bind _ _ (validate_number_params-Yields lo hi count) λ _ p.
    Yields-weaken _ (λ xs h. (p, h.0, h.1))
      (Yields-repeat (IsBetween lo hi) _ count p.counted (
        Yields-bind _ _ (Yields-int_n _ (grind (int_laws, p.ordered)))
          λ x below. Yields-pure (lo +ℤ x) (shifted lo hi x p.ordered below)))

-- The parameters that `RollDice` takes.
pub record DiceParams (sides count : ℤ) : Type 0 where
  pub sided : is_valid_sides sides ≡ true
  pub counted : IsBetween (pos 1) (pos 100) count

-- `RollDice` returns the count that was asked for, of numbers from 1 to the number of sides,
-- exactly where there is such a die and the count is in order; else it returns an error. It never
-- panics.
pub roll_dice-Yields :
    (sides count : ℤ)
    → Yields
        (λ xs.
          DiceParams sides count × (pos (length xs) ≡ count) × All (IsBetween (pos 1) sides) xs)
        (λ e. DiceParams sides count → ⊥)
        (roll_dice sides count)
unfolding roll_dice
roll_dice-Yields sides count =
    Yields-bind _ _ (Yields-refuse_if _ _ (λ out p. ground (arith, p.sided))) λ _ sided.
      Yields-bind _ _ (Yields-check_count count 100 (λ bad e p. bad p.counted)) λ _ counted.
        Yields-weaken _ (λ xs h. (record { sided = ground arith; counted = counted }, h.0, h.1))
          (Yields-repeat (IsBetween (pos 1) sides) _ count counted (
            Yields-bind _ _ (Yields-int_n sides (ground arith))
              λ x (k, e, below). Yields-pure (x +ℤ pos 1) (rw e (grind int_laws))))

-- `FlipCoin` gives heads or tails.
pub flip_coin-Yields : Yields (λ s. (s ≡ "heads") ⊎ (s ≡ "tails")) (λ e. ⊥) flip_coin
unfolding flip_coin
flip_coin-Yields =
    Yields-bind _ _ (Yields-int_n (pos 2) (omega arith))
      λ x below. Yields-pure (if eq_ℤ x (pos 0) then "heads" else "tails") (ground arith)
