-- ===== src/Service/Words.antt =====
-- api/internal/service/words.go
pub mod Laws
use Prim.Native.Char.{Char, code}
use Prim.Native.String
use zaas.Prelude.{
  ℕ, ◌-◌, String, Bool, not, ◌&&◌, ◌||◌, List, [], ◌∷◌, map, get_or, ltb, leb, str_eq,
  if◌then◌else◌,
}
use zaas.Prelude.Int.{ℤ, pos, ltb_ℤ}
use zaas.Prelude.Text.{◌^^◌, len, join, show, chars}
use zaas.Service.Gen.{
  errorf, err_invalid_word_style, err_separator_too_long, err_invalid_param, Gen, pure, ◌>>=◌, ◌>>◌,
  refuse_if, int_n, make_with, pick,
}
use zaas.Service.Number.{check_count}
use zaas.Service.Wordlists

pub record WordsParams : Type 0 where
  pub style : String
  pub words : ℤ
  pub separator : String
  pub capitalize : Bool
  pub count : ℤ

-- `unicode.ToUpper`, on a letter of ASCII; the lists have no other characters.
unfoldable pub to_upper : Char → String
unfolding chars
to_upper c =
    if leb b'a' (code c) && leb (code c) b'z'
    then get_or (chars "ABCDEFGHIJKLMNOPQRSTUVWXYZ") (code c - b'a') ""
    else String.◌∷◌ c String.[]

-- The first rune in upper case, where there is one.
unfoldable pub upper_first : String → String
unfolding to_upper
upper_first String.[] = String.[]
upper_first (String.◌∷◌ c s) = to_upper c ^^ s

-- Two words, one of each list.
unfoldable pub pick_two : List String → List String → Gen (List String)
unfolding ◌>>=◌ pick
pick_two xs ys = do x ← pick xs; y ← pick ys; pure (x ∷ y ∷ [])

-- `parts` of `generateWordString`, before they are capitalized
unfoldable pub word_parts : WordsParams → Gen (List String)
unfolding pick_two make_with
word_parts p =
    if str_eq p.style "docker"
    then pick_two Wordlists.docker_adjectives Wordlists.docker_names
    else (if str_eq p.style "ubuntu"
        then pick_two Wordlists.docker_adjectives Wordlists.ubuntu_animals
        else make_with p.words λ i. pick Wordlists.random)

unfoldable pub generate_word_string : WordsParams → Gen String
unfolding word_parts ◌>>=◌ upper_first join
generate_word_string p = do
  parts ← word_parts p
  pure (join p.separator (if p.capitalize then map upper_first parts else parts))

module _ (quote : String → String) where
  -- `quote` is `%q` of `fmt`.
  unfoldable pub random_words : WordsParams → Gen (List String)
  unfolding ◌>>=◌ generate_word_string check_count make_with
  random_words p = do
    refuse_if
        (not (str_eq p.style "random")
          && not (str_eq p.style "docker")
          && not (str_eq p.style "ubuntu"))
        (errorf err_invalid_word_style
          ("style must be one of random, docker, ubuntu; got " ^^ quote p.style))
    refuse_if (ltb 5 (len p.separator)) (
        errorf err_separator_too_long
          ("separator must be at most 5 characters; got " ^^ show (pos (len p.separator))))
    refuse_if (str_eq p.style "random" && (ltb_ℤ p.words (pos 1) || ltb_ℤ (pos 20) p.words))
        (errorf err_invalid_param ("words must be between 1 and 20; got " ^^ show p.words))
    check_count p.count 100
    make_with p.count λ i. generate_word_string p
