-- ===== src/Service/Gen.antt =====
-- What the services of api/internal/service share: errors, `math/rand/v2` and `crypto/rand`, and
-- loops that fill a slice. A call takes numbers from a source and returns, fails with an error, or
-- panics.
pub mod Yields
use zaas.Prelude.{
  ℕ, zero, suc, ◌+◌, ◌%◌, String, Bool, List, [], ◌∷◌, Option, none, some, length, get_elem?,
  if◌then◌else◌,
}
use zaas.Prelude.Int.{ℤ, pos, negsuc}
use zaas.Prelude.Text.{◌^^◌}

-- The error variables of the package, and the errors of the libraries that it passes on.
pub data ErrorKind : Type 0 where
  err_invalid_sides err_count_out_of_range err_min_greater_than_max err_bounds_exceeded : ErrorKind
  err_invalid_format err_invalid_color_format err_invalid_param err_no_character_sets : ErrorKind
  err_invalid_word_style err_separator_too_long err_crypto_rand : ErrorKind
  err_invalid_key_type err_invalid_key_bits err_library : ErrorKind

-- The texts that they are made with.
abbrev pub text_of : ErrorKind → String
text_of err_invalid_sides = "invalid sides value"
text_of err_count_out_of_range = "count out of range"
text_of err_min_greater_than_max = "min must be <= max"
text_of err_bounds_exceeded = "bounds exceeded"
text_of err_invalid_format = "invalid format"
text_of err_invalid_color_format = "invalid color format"
text_of err_invalid_param = "invalid parameter"
text_of err_no_character_sets = "at least one character set must be enabled"
text_of err_invalid_word_style = "invalid word style"
text_of err_separator_too_long = "separator too long"
text_of err_crypto_rand = "crypto/rand failed"
text_of err_invalid_key_type = "invalid key type"
text_of err_invalid_key_bits = "invalid key bits"
text_of err_library = ""

pub record ServiceError : Type 0 where
  pub kind : ErrorKind
  pub message : String

-- `fmt.Errorf("%w: ...", kind, ...)`
abbrev pub errorf : ErrorKind → String → ServiceError
errorf k detail = record { kind = k; message = text_of k ^^ ": " ^^ detail }

abbrev pub plain : ErrorKind → ServiceError
plain k = record { kind = k; message = text_of k }

-- `draws` are the numbers that the generator gives, `taken` counts those that are used up, and
-- `fails` says which reads of `crypto/rand` fail.
pub record Source : Type 0 where
  pub draws : ℕ → ℕ
  pub fails : ℕ → Bool
  pub taken : ℕ

pub data Run (A : Type 0) : Type 0 where
  done : A → Source → Run A
  failed : ServiceError → Source → Run A
  panicked : Run A

abbrev pub Gen : Type 0 → Type 0
Gen A = Source → Run A

abbrev pub next_source : Source → Source
next_source g = record g { taken = g.taken + 1 }

module _ {A : Type 0} where
  abbrev pub pure : A → Gen A
  pure a g = done a g

  abbrev pub fail : ServiceError → Gen A
  fail e g = failed e g

  abbrev pub panic : Gen A
  panic g = panicked

  abbrev pub or_panic : Option A → Gen A
  or_panic none = panic
  or_panic (some a) = pure a

  -- `xs[i]`
  abbrev pub index : List A → ℤ → Gen A
  index xs (negsuc _) = panic
  index xs (pos i) = or_panic (get_elem? xs i)

module _ {A B : Type 0} where
  abbrev pub continue : (A → Gen B) → Run A → Run B
  continue f (done a g) = f a g
  continue f (failed e g) = failed e g
  continue f panicked = panicked

  infixl 5 ◌>>=◌
  unfoldable pub ◌>>=◌ : Gen A → (A → Gen B) → Gen B
  ◌>>=◌ m f g = continue f (m g)

-- `if c { return nil, e }`
unfoldable pub refuse_if : Bool → ServiceError → Gen (Unit {0})
refuse_if c e g = if c then failed e g else done tt g

infixl 5 ◌>>◌
abbrev pub ◌>>◌ : {B : Type 0} → Gen (Unit {0}) → Gen B → Gen B
m >> k = m >>= λ _. k

-- `rand.IntN(n)` of math/rand/v2, which panics unless 0 < n.
unfoldable pub int_n : ℤ → Gen ℤ
int_n (pos (suc n)) g = done (pos (g.draws g.taken % suc n)) (next_source g)
int_n (pos zero) g = panicked
int_n (negsuc n) g = panicked

-- `rand.Int(rand.Reader, big.NewInt(n))` of crypto/rand, with the error of `GeneratePasswords`.
unfoldable pub crypto_int : ℤ → Gen ℤ
crypto_int (pos (suc n)) g =
    if g.fails g.taken
    then failed (plain err_crypto_rand) (next_source g)
    else done (pos (g.draws g.taken % suc n)) (next_source g)
crypto_int (pos zero) g = panicked
crypto_int (negsuc n) g = panicked

module _ {A : Type 0} where
  -- `for i := range n { results[i] = f(i) }`, from `start` on
  unfoldable pub for_range : (ℕ → Gen A) → ℕ → ℕ → Gen (List A)
  unfolding ◌>>=◌
  for_range f start zero = pure []
  for_range f start (suc n) = do x ← f start; xs ← for_range f (suc start) n; pure (x ∷ xs)

  -- `results := make([]A, count)` and the loop that fills it; `make` panics at a negative length.
  unfoldable pub make_with : ℤ → (ℕ → Gen A) → Gen (List A)
  unfolding for_range
  make_with (pos n) f = for_range f 0 n
  make_with (negsuc _) f = panic

-- A random element of a slice: `xs[rand.IntN(len(xs))]`
unfoldable pub pick : {A : Type 0} → List A → Gen A
unfolding ◌>>=◌ int_n
pick xs = int_n (pos (length xs)) >>= index xs
