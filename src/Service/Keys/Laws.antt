-- ===== src/Service/Keys/Laws.antt =====
-- The keys and tokens of api/internal/service/auth.go as texts.
use Prim.Native.Char.{code}
use mathlib.Core.Bool.{and-eq-true_iff}
use text.Mathlib.TextLemmas.{nil-append, cons-append, append_cancel_left}
use text.Mathlib.TextPositions.{len-append}
use zaas.Prelude.{
  ℕ, zero, suc, ◌+◌, ◌-◌, ◌*◌, ◌/◌, ◌%◌, ◌<◌, ◌≡◌, ◌⊎◌, inl, inr, Bool-cases, refl, sym, ap, ap₂,
  ◌∙◌, String, List, [], ◌∷◌, arith, length, ltb, ◌==◌, if◌then◌else◌, All, true, false, Bool, ◌&&◌,
}
use zaas.Prelude.Text.{◌^^◌, len}
use zaas.Service.Keys.{hex_digit, encode_to_string, generate_api_key, generate_token}

-- `hex.DecodeString` on the digits that the encoder writes.
abbrev hex_value : ℕ → ℕ
hex_value c = if ltb c b'a' then c - 48 else c - 87

abbrev first_value : String → ℕ
first_value String.[] = 16
first_value (String.◌∷◌ c s) = hex_value (code c)

abbrev is_single : String → Bool
is_single String.[] = false
is_single (String.◌∷◌ c String.[]) = true
is_single (String.◌∷◌ c (String.◌∷◌ d s)) = false

pub decode_string : String → List ℕ
decode_string String.[] = []
decode_string (String.◌∷◌ c String.[]) = []
decode_string (String.◌∷◌ c (String.◌∷◌ d s)) =
    (hex_value (code c) * 16 + hex_value (code d)) ∷ decode_string s

abbrev digit_ok : ℕ → Bool
digit_ok n =
    is_single (hex_digit n) && ((first_value (hex_digit n) == n) && (len (hex_digit n) == 1))

le_cases : (n m : ℕ) → n < suc m → (n < m) ⊎ (n ≡ m)
le_cases n m h = ground arith

-- The digits of all numbers below `n` are in order.
digits_pass : ℕ → Bool
digits_pass zero = true
digits_pass (suc n) = if digit_ok n then digits_pass n else false

digits_pass-at : (n m : ℕ) → n < m → digits_pass m ≡ true → digit_ok n ≡ true
unfolding digits_pass
digits_pass-at n zero below passed = elim below [ ]
digits_pass-at n (suc m) below passed = elim (Bool-cases (digit_ok m)) [
  | inl good ↦ elim (le_cases n m below) [
    | inl less ↦ digits_pass-at n m less (rw good at passed)
    | inr same ↦ rw same good
  ]
  | inr bad ↦ let q : false ≡ true = rw bad at passed in cc
]

sixteen_pass : digits_pass 16 ≡ true
unfolding digits_pass hex_digit
sixteen_pass = refl

beq→eq : (a b : ℕ) → (a == b) ≡ true → a ≡ b
beq→eq a b h = ground arith

record IsDigit (n : ℕ) : Type 0 where
  single : is_single (hex_digit n) ≡ true
  value : first_value (hex_digit n) ≡ n
  size : len (hex_digit n) ≡ 1

hex_digit_lem : (n : ℕ) → n < 16 → IsDigit n
hex_digit_lem n h =
    let (one, rest) = (and-eq-true_iff _ _).0 (digits_pass-at n 16 h sixteen_pass) in
    let (same, size) = (and-eq-true_iff _ _).0 rest in
    record { single = one; value = beq→eq _ _ same; size = beq→eq _ _ size }

decode_pair :
    (s t rest : String)
    → is_single s ≡ true
    → is_single t ≡ true
    → decode_string (s ^^ t ^^ rest) ≡ (first_value s * 16 + first_value t) ∷ decode_string rest
unfolding decode_string
decode_pair String.[] t rest hs ht = cc
decode_pair (String.◌∷◌ c (String.◌∷◌ d s)) t rest hs ht = cc
decode_pair (String.◌∷◌ c String.[]) String.[] rest hs ht = cc
decode_pair (String.◌∷◌ c String.[]) (String.◌∷◌ d (String.◌∷◌ e t)) rest hs ht = cc
decode_pair (String.◌∷◌ c String.[]) (String.◌∷◌ d String.[]) rest hs ht =
    simp (cons-append, nil-append) refl

-- Decoding the hexadecimal digits of bytes gives the bytes back.
pub decode-encode :
    (bytes : List ℕ) → All (λ b. b < 256) bytes → decode_string (encode_to_string bytes) ≡ bytes
unfolding encode_to_string decode_string
decode-encode [] h = refl
decode-encode (b ∷ bs) h =
    let high = hex_digit_lem (b / 16) (omega (arith, h.0)) in
    let low = hex_digit_lem (b % 16) (omega arith) in
    decode_pair (hex_digit (b / 16)) (hex_digit (b % 16)) (encode_to_string bs) high.single
      low.single
    ∙ ap₂ (λ (x : ℕ) (xs : List ℕ). x ∷ xs) (rw (high.value, low.value) (omega arith))
        (decode-encode bs h.1)

abbrev pub AreBytes : List ℕ → Type 0
AreBytes bytes = All (λ b. b < 256) bytes

-- Two API keys are equal only if the random bytes behind them are.
pub generate_api_key_injective :
    (bytes bytes' : List ℕ)
    → AreBytes bytes
    → AreBytes bytes'
    → generate_api_key bytes ≡ generate_api_key bytes'
    → bytes ≡ bytes'
unfolding generate_api_key
generate_api_key_injective bytes bytes' h h' same =
    sym (decode-encode bytes h)
    ∙ ap decode_string
        (append_cancel_left "zaas_" (encode_to_string bytes) (encode_to_string bytes') same)
    ∙ decode-encode bytes' h'

pub len-encode : (bytes : List ℕ) → AreBytes bytes → len (encode_to_string bytes) ≡ 2 * length bytes
unfolding encode_to_string
len-encode [] h = refl
len-encode (b ∷ bs) h =
    let high = hex_digit_lem (b / 16) (omega (arith, h.0)) in
    let low = hex_digit_lem (b % 16) (omega arith) in
    rw (len-append, len-append, high.size, low.size, len-encode bs h.1) (omega arith)

-- A key of 16 random bytes is 37 bytes long and begins with "zaas_"; a token of 32 is 64 long.
key_sizes :
    (bytes seed : List ℕ)
    → AreBytes bytes
    → AreBytes seed
    → length bytes ≡ 16
    → length seed ≡ 32
    → (len (generate_api_key bytes) ≡ 37) × (len (generate_token seed) ≡ 64)
unfolding generate_api_key generate_token
key_sizes bytes seed h k n m =
    (rw (len-append, len-encode bytes h, n) refl, rw (len-encode seed k, m) refl)
