-- ===== src/Service/Gen/Yields.antt =====
-- What a call of a service comes to, whatever the source gives: one rule for each way to build it.
use zaas.Prelude.{
  ℕ, zero, suc, ◌%◌, ap, subst, ◌<◌, ◌≡◌, refl, Bool, true, false, List, [], ◌∷◌, Option, none,
  some, length, get_elem?, All, arith, if◌then◌else◌,
}
use zaas.Prelude.Int.{ℤ, pos, negsuc, pos_part, ◌≤ℤ◌}
use zaas.Service.Gen.{
  ServiceError, Source, Run, done, failed, panicked, Gen, pure, or_panic, index, continue, ◌>>=◌,
  refuse_if, int_n, crypto_int, err_crypto_rand, plain, next_source, for_range, make_with, pick,
}
use native.Mathlib.Omega.{mod_fact}

abbrev pub Ends : {A : Type 0} → (A → Type 0) → (ServiceError → Type 0) → Run A → Type 0
Ends P Q (done a g) = P a
Ends P Q (failed e g) = Q e
Ends P Q panicked = ⊥

-- From every source the call returns a value with `P` or an error with `Q`, and does not panic.
pub record Yields {A : Type 0} (P : A → Type 0) (Q : ServiceError → Type 0) (m : Gen A)
    : Type 0 where
  pub at : (g : Source) → Ends P Q (m g)

-- `P` of each element and its position.
abbrev pub AllFrom : {A : Type 0} → (ℕ → A → Type 0) → ℕ → List A → Type 0
AllFrom P i [] = Unit
AllFrom P i (x ∷ xs) = P i x × AllFrom P (suc i) xs

pub AllFrom-All :
    {A : Type 0} (P : A → Type 0) (i : ℕ) (xs : List A) → AllFrom (λ _. P) i xs → All P xs
AllFrom-All P i [] h = tt
AllFrom-All P i (x ∷ xs) h = (h.0, AllFrom-All P (suc i) xs h.1)

weaken :
    {A : Type 0} {P R : A → Type 0} (Q : ServiceError → Type 0)
    → ((a : A) → P a → R a)
    → (r : Run A) → Ends P Q r
    → Ends R Q r
weaken Q f (done a g) h = f a h
weaken Q f (failed e g) h = h
weaken Q f panicked h = elim h [ ]

module _ {A : Type 0} {Q : ServiceError → Type 0} where
  pub Yields-pure : {P : A → Type 0} (a : A) → P a → Yields P Q (pure a)
  Yields-pure a h = record { at = λ g. h }

  pub Yields-weaken :
      {P R : A → Type 0} (m : Gen A) → ((a : A) → P a → R a) → Yields P Q m → Yields R Q m
  Yields-weaken m f h = record { at = λ g. weaken Q f (m g) (h.at g) }

no_error :
    {A : Type 0} (P : A → Type 0) (Q : ServiceError → Type 0) (r : Run A)
    → Ends P (λ e. ⊥) r
    → Ends P Q r
no_error P Q (done a g) h = h
no_error P Q (failed e g) h = elim h [ ]
no_error P Q panicked h = elim h [ ]

-- A call that does not fail has no error to answer for.
pub Yields-no_error :
    {A : Type 0} {P : A → Type 0} {Q : ServiceError → Type 0} (m : Gen A)
    → Yields P (λ e. ⊥) m
    → Yields P Q m
Yields-no_error {P} {Q} m h = record { at = λ g. no_error P Q (m g) (h.at g) }

pub Yields-if :
    {A : Type 0} {Q : ServiceError → Type 0} {P R : A → Type 0} (b : Bool) (m n : Gen A)
    → (b ≡ true → Yields P Q m)
    → (b ≡ false → Yields R Q n)
    → Yields (λ a. if b then P a else R a) Q (if b then m else n)
Yields-if true m n h k = record { at = (h refl).at }
Yields-if false m n h k = record { at = (k refl).at }

module _ {A B : Type 0} {Q : ServiceError → Type 0} {P : A → Type 0} {R : B → Type 0} where
  continue-Ends :
      (f : A → Gen B) (r : Run A)
      → Ends P Q r
      → ((a : A) → P a → Yields R Q (f a))
      → Ends R Q (continue f r)
  continue-Ends f (done a g) h k = (k a h).at g
  continue-Ends f (failed e g) h k = h
  continue-Ends f panicked h k = elim h [ ]

  pub Yields-bind :
      (m : Gen A) (f : A → Gen B)
      → Yields P Q m
      → ((a : A) → P a → Yields R Q (f a))
      → Yields R Q (m >>= f)
  unfolding ◌>>=◌
  Yields-bind m f h k = record { at = λ g. continue-Ends f (m g) (h.at g) k }

-- After the test the rest may use that it failed.
pub Yields-refuse_if :
    {Q : ServiceError → Type 0} (c : Bool) (e : ServiceError)
    → (c ≡ true → Q e)
    → Yields (λ _. c ≡ false) Q (refuse_if c e)
unfolding refuse_if
Yields-refuse_if true e h = record { at = λ g. h refl }
Yields-refuse_if false e h = record { at = λ g. refl }

-- There is a first element.
abbrev pub IsFilled : {A : Type 0} → List A → Type 0
IsFilled [] = ⊥
IsFilled (_ ∷ _) = Unit

-- A position of a list holds an element.
pub get_elem?-some :
    {A : Type 0} (xs : List A) (i : ℕ) → i < length xs → (a : A) × (get_elem? xs i ≡ some a)
get_elem?-some [] i h = let bad : ⊥ = omega (arith, h) in elim bad [ ]
get_elem?-some (x ∷ xs) zero h = (x, refl)
get_elem?-some (x ∷ xs) (suc i) h = get_elem?-some xs i (omega (arith, h))

-- A number that `rand.IntN(n)` may give.
abbrev pub IsBelow : ℤ → ℤ → Type 0
IsBelow n x = (k : ℕ) × (x ≡ pos k) × (k < pos_part n)

module _ {Q : ServiceError → Type 0} where
  pub Yields-int_n : (n : ℤ) → pos 1 ≤ℤ n → Yields (IsBelow n) Q (int_n n)
  unfolding int_n
  Yields-int_n (pos (suc n)) h = record {
    at = λ g. (g.draws g.taken % suc n, refl, mod_fact (g.draws g.taken) n);
  }
  Yields-int_n (pos zero) h = let bad : ⊥ = omega (arith, h) in elim bad [ ]
  Yields-int_n (negsuc n) h = let bad : ⊥ = omega (arith, h) in elim bad [ ]

  pub Yields-crypto_int :
      (n : ℤ) → pos 1 ≤ℤ n → Q (plain err_crypto_rand) → Yields (IsBelow n) Q (crypto_int n)
  unfolding crypto_int
  Yields-crypto_int (pos (suc n)) h q = record { at = λ g. ends g (g.fails g.taken) }
    where
      ends :
          (g : Source) (b : Bool)
          → Ends (IsBelow (pos (suc n))) Q (
              if b
              then failed (plain err_crypto_rand) (next_source g)
              else done (pos (g.draws g.taken % suc n)) (next_source g))
      ends g true = q
      ends g false = (g.draws g.taken % suc n, refl, mod_fact (g.draws g.taken) n)
  Yields-crypto_int (pos zero) h q = let bad : ⊥ = omega (arith, h) in elim bad [ ]
  Yields-crypto_int (negsuc n) h q = let bad : ⊥ = omega (arith, h) in elim bad [ ]

module _ {A : Type 0} {Q : ServiceError → Type 0} where
  pub Yields-for_range :
      (P : ℕ → A → Type 0) (f : ℕ → Gen A) (start n : ℕ)
      → ((i : ℕ) → Yields (P i) Q (f i))
      → Yields (λ xs. (length xs ≡ n) × AllFrom P start xs) Q (for_range f start n)
  unfolding for_range
  Yields-for_range P f start zero h = Yields-pure [] (refl, tt)
  Yields-for_range P f start (suc n) h =
      Yields-bind (f start) (λ x. for_range f (suc start) n >>= λ xs. pure (x ∷ xs)) (h start)
        λ x px.
          Yields-bind (for_range f (suc start) n) (λ xs. pure (x ∷ xs))
            (Yields-for_range P f (suc start) n h)
            λ xs pxs. Yields-pure (x ∷ xs) (ap suc pxs.0, (px, pxs.1))

  pub Yields-make_with :
      (P : ℕ → A → Type 0) (f : ℕ → Gen A) (count : ℤ)
      → pos 0 ≤ℤ count
      → ((i : ℕ) → Yields (P i) Q (f i))
      → Yields (λ xs. (pos (length xs) ≡ count) × AllFrom P 0 xs) Q (make_with count f)
  unfolding make_with
  Yields-make_with P f (pos n) h k =
      Yields-weaken (for_range f 0 n) (λ xs p. (ap pos p.0, p.1)) (Yields-for_range P f 0 n k)
  Yields-make_with P f (negsuc n) h k = let bad : ⊥ = omega (arith, h) in elim bad [ ]

  pub Yields-or_panic :
      {P : A → Type 0} (o : Option A) (a : A) → o ≡ some a → P a → Yields P Q (or_panic o)
  Yields-or_panic none a e p = cc
  Yields-or_panic {P} (some b) a e p = let same : a ≡ b = cc in Yields-pure b (subst P same p)

  pub Yields-pick :
      (xs : List A) → IsFilled xs → Yields (λ a. (i : ℕ) × (get_elem? xs i ≡ some a)) Q (pick xs)
  unfolding pick
  Yields-pick [] filled = elim filled [ ]
  Yields-pick (x ∷ xs) filled =
      Yields-bind (int_n (pos (length (x ∷ xs)))) (index (x ∷ xs))
        (Yields-int_n (pos (length (x ∷ xs))) (omega arith))
        λ n (i, e, below).
          let (a, found) = get_elem?-some (x ∷ xs) i below in
          rw e (Yields-or_panic (get_elem? (x ∷ xs) i) a found (i, found))
