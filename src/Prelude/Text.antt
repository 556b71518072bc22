-- ===== src/Prelude/Text.antt =====
-- Go strings as native texts: joining, decimal digits and character classes.
-- `len` of `Prim.Native.String` counts the bytes of UTF-8, as Go's `len` does.
use Prim.Native.Nat.{ℕ, zero, suc, ◌/◌, ◌%◌}
use Prim.Native.Char.{code}
use Prim.Native.String
use mathlib.Core.Bool.{Bool, ◌&&◌, ◌||◌}
use Prim.Native.String.{String}
use mathlib.Core.List.{List, [], ◌∷◌}
use zaas.Prelude.Tests.{ltb, leb, ◌==◌, str_eq, if◌then◌else◌}
use zaas.Prelude.Lists.{get_or}
use zaas.Prelude.Int.{ℤ, pos, negsuc}

infixr 65 ◌^^◌
-- Go's `+` on strings.
abbrev pub ◌^^◌ : String → String → String
s ^^ t = String.◌++◌ s t

abbrev pub len : String → ℕ
len = String.len

-- `strings.Join`
unfoldable pub join : String → List String → String
join sep [] = ""
join sep (s ∷ []) = s
join sep (s ∷ t ∷ r) = s ^^ sep ^^ join sep (t ∷ r)

-- The digit that a number below ten is printed as.
abbrev pub digit : ℕ → String
digit n = get_or ("0" ∷ "1" ∷ "2" ∷ "3" ∷ "4" ∷ "5" ∷ "6" ∷ "7" ∷ "8" ∷ "9" ∷ []) n "9"

-- The decimal digits of a number; a number has at most as many digits as its fuel.
decimal : ℕ → ℕ → String
decimal zero n = ""
decimal (suc fuel) n =
    let front = decimal fuel (n / 10) ^^ digit (n % 10) in if ltb n 10 then digit n else front

-- `%d` of `fmt.Sprintf`
unfoldable pub show : ℤ → String
unfolding decimal
show (pos n) = decimal (suc n) n
show (negsuc n) = "-" ^^ decimal (suc (suc n)) (suc n)

-- `strings.Split(s, sep)` at a separator of one character: the parts between the separators.
unfoldable pub split_from : ℕ → String → String → List String
split_from sep part String.[] = part ∷ []
split_from sep part (String.◌∷◌ c s) =
    let closed = part ∷ split_from sep "" s in
    let longer = split_from sep (part ^^ String.◌∷◌ c String.[]) s in
    if code c == sep then closed else longer

unfoldable pub split : ℕ → String → List String
unfolding split_from
split sep s = split_from sep "" s

-- `unicode.IsSpace`
abbrev pub is_space : ℕ → Bool
is_space c =
    (leb 9 c && leb c 13)
    || c == 32
    || c == 0x85
    || c == 0xa0
    || c == 0x1680
    || (leb 0x2000 c && leb c 0x200a)
    || c == 0x2028
    || c == 0x2029
    || c == 0x202f
    || c == 0x205f
    || c == 0x3000

-- `strings.TrimLeftFunc(s, unicode.IsSpace)`
unfoldable pub trim_left : String → String
trim_left String.[] = String.[]
trim_left (String.◌∷◌ c s) =
    let rest = trim_left s in if is_space (code c) then rest else String.◌∷◌ c s

-- `strings.TrimRightFunc(s, unicode.IsSpace)`
unfoldable pub trim_right : String → String
trim_right String.[] = String.[]
trim_right (String.◌∷◌ c s) =
    let rest = trim_right s in
    if str_eq rest "" && is_space (code c) then String.[] else String.◌∷◌ c rest

-- `strings.TrimSpace`
unfoldable pub trim_space : String → String
unfolding trim_left trim_right
trim_space s = trim_right (trim_left s)

-- The characters of a text, each as a text of its own.
unfoldable pub chars : String → List String
chars String.[] = []
chars (String.◌∷◌ c s) = String.◌∷◌ c String.[] ∷ chars s
