-- ===== src/Service/Tests.antt =====
-- Concrete calls of the services of api/internal/service.
use zaas.Prelude.{ℕ, ◌≡◌, refl, List, [], ◌∷◌, length, All, arith}
use zaas.Prelude.Int.{◌≤ℤ◌, ◌-ℤ◌, pos, negsuc}
use zaas.Service.Keys.Laws.{generate_api_key_injective}
use zaas.Service.Gen.Yields.{Yields}
use zaas.Service.Number.{random_ints}
use zaas.Service.Number.Laws.{IsBetween, NumberParams, random_ints-Yields}
use zaas.Service.Float.Rounds.{Within}
use zaas.Service.Float.Whole.{whole, whole-Rounds}
use zaas.Service.Number.{random_floats}
use zaas.Service.Number.Floats.{random_floats-Yields}

abbrev sixteen : List ℕ
sixteen = 0 ∷ 1 ∷ 2 ∷ 3 ∷ 4 ∷ 5 ∷ 6 ∷ 7 ∷ 8 ∷ 9 ∷ 10 ∷ 11 ∷ 12 ∷ 254 ∷ 255 ∷ 15 ∷ []

generate_api_key_injective_example : sixteen ≡ sixteen
generate_api_key_injective_example =
    generate_api_key_injective sixteen sixteen (ground arith) (ground arith) refl

random_ints-Yields_example :
    Yields
      (λ xs.
        NumberParams (negsuc 4) (pos 5) (pos 3)
        × (pos (length xs) ≡ pos 3)
        × All (IsBetween (negsuc 4) (pos 5)) xs)
      (λ e. NumberParams (negsuc 4) (pos 5) (pos 3) → ⊥)
      (random_ints (negsuc 4) (pos 5) (pos 3))
random_ints-Yields_example = random_ints-Yields (negsuc 4) (pos 5) (pos 3)

random_floats-Yields_example :
    Yields
      (λ xs.
        ((negsuc 4 ≤ℤ pos 5) × IsBetween (pos 1) (pos 100) (pos 3))
        × (pos (length xs) ≡ pos 3)
        × All (Within whole (negsuc 4) (pos 5)) xs)
      (λ e. ((negsuc 4 ≤ℤ pos 5) × IsBetween (pos 1) (pos 100) (pos 3)) → ⊥)
      (random_floats whole (negsuc 4) (pos 5) (pos 3))
unfolding ◌-ℤ◌
random_floats-Yields_example =
    random_floats-Yields whole whole-Rounds (negsuc 4) (pos 5) (pos 3) (omega arith) (omega arith)
      (omega arith)
