-- ===== src/Service/Password.antt =====
-- api/internal/service/password.go. A byte is a text of one character.
pub mod Laws
use zaas.Prelude.{String, Bool, not, ◌&&◌, ◌||◌, List, [], ◌++◌, length, if◌then◌else◌}
use zaas.Prelude.Int.{ℤ, pos, ltb_ℤ}
use zaas.Prelude.Text.{◌^^◌, join, show, chars}
use zaas.Service.Gen.{
  errorf, plain, err_invalid_param, err_no_character_sets, Gen, pure, ◌>>=◌, ◌>>◌, index, refuse_if,
  crypto_int, make_with,
}
use zaas.Service.Number.{check_count}

abbrev pub password_symbols : String
password_symbols = "!@#$%^&*()-_=+"

-- The character sets that are enabled.
unfoldable pub charset : Bool → Bool → Bool → Bool → List String
unfolding chars
charset uppercase lowercase digits symbols =
    (if uppercase then chars "ABCDEFGHIJKLMNOPQRSTUVWXYZ" else [])
    ++ (if lowercase then chars "abcdefghijklmnopqrstuvwxyz" else [])
    ++ (if digits then chars "0123456789" else [])
    ++ (if symbols then chars password_symbols else [])

-- One password: `buf` filled, as a string.
unfoldable pub password : List String → ℤ → Gen String
unfolding ◌>>=◌ make_with crypto_int join
password set size = do
  buf ← make_with size λ j. crypto_int (pos (length set)) >>= index set
  pure (join "" buf)

unfoldable pub generate_passwords : ℤ → ℤ → Bool → Bool → Bool → Bool → Gen (List String)
unfolding ◌>>=◌ charset password check_count make_with
generate_passwords count size uppercase lowercase digits symbols = do
  refuse_if (not uppercase && not lowercase && not digits && not symbols)
      (plain err_no_character_sets)
  refuse_if (ltb_ℤ size (pos 8) || ltb_ℤ (pos 128) size)
      (errorf err_invalid_param ("length must be between 8 and 128; got " ^^ show size))
  check_count count 100
  make_with count λ i. password (charset uppercase lowercase digits symbols) size
