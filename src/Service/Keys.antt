-- ===== src/Service/Keys.antt =====
-- api/internal/service/auth.go: API keys and verification tokens. The bytes of `crypto/rand.Read`,
-- which never fails, and the hex digest of SHA-256 are parameters of those who call this module.
pub mod Laws
use Prim.Native.Nat.{bit_and}
use Prim.Native.Char.{Char, code}
use Prim.Native.String
use zaas.Prelude.{ℕ, zero, suc, ◌/◌, ◌%◌, ◌<◌, String, List, [], ◌∷◌, ltb, ◌==◌, if◌then◌else◌}
use zaas.Prelude.Text.{◌^^◌, len, digit}

abbrev pub letter : ℕ → String
letter n =
    if n == 10
    then "a"
    else (if n == 11
        then "b"
        else (if n == 12 then "c" else (if n == 13 then "d" else (if n == 14 then "e" else "f"))))

-- One hexadecimal digit of a number below 16.
unfoldable pub hex_digit : ℕ → String
hex_digit n = if ltb n 10 then digit n else letter n

-- `hex.EncodeToString`
unfoldable pub encode_to_string : List ℕ → String
unfolding hex_digit
encode_to_string [] = ""
encode_to_string (b ∷ bs) = hex_digit (b / 16) ^^ hex_digit (b % 16) ^^ encode_to_string bs

-- `GenerateAPIKey`, from 16 random bytes
unfoldable pub generate_api_key : List ℕ → String
unfolding encode_to_string
generate_api_key bytes = "zaas_" ^^ encode_to_string bytes

-- `GenerateToken`, from 32 random bytes
unfoldable pub generate_token : List ℕ → String
unfolding encode_to_string
generate_token bytes = encode_to_string bytes

-- `HashKey`: the hex digest of SHA-256
abbrev pub hash_key : (String → String) → String → String
hash_key sha256_hex key = sha256_hex key

-- `key[:8]`, whole if the key has fewer than eight bytes; keys are ASCII.
abbrev pub take_chars : ℕ → String → String
take_chars zero s = ""
take_chars (suc n) String.[] = ""
take_chars (suc n) (String.◌∷◌ c s) = String.◌∷◌ c (take_chars n s)

-- `KeyPrefix`
unfoldable pub key_prefix : String → String
key_prefix key = if ltb (len key) 8 then key else take_chars 8 key
