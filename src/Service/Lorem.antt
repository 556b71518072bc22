-- ===== src/Service/Lorem.antt =====
-- api/internal/service/lorem.go
pub mod Laws
use zaas.Prelude.{ℕ, zero, suc, String, Bool, false, ◌&&◌, ◌||◌, List, [], ◌∷◌, ◌==◌, if◌then◌else◌}
use zaas.Prelude.Int.{ℤ, pos, ◌+ℤ◌, ltb_ℤ}
use zaas.Prelude.Text.{◌^^◌, join, show}
use zaas.Service.Gen.{
  errorf, err_invalid_param, Gen, pure, ◌>>=◌, ◌>>◌, refuse_if, int_n, make_with, pick,
}
use zaas.Service.Number.{check_count}
use zaas.Service.Words.{upper_first}

abbrev pub lorem_words : List String
lorem_words =
    "lorem" ∷ "ipsum" ∷ "dolor" ∷ "sit" ∷ "amet" ∷ "consectetur" ∷ "adipiscing" ∷ "elit" ∷ "sed"
    ∷ "do" ∷ "eiusmod" ∷ "tempor" ∷ "incididunt" ∷ "ut" ∷ "labore" ∷ "et" ∷ "dolore" ∷ "magna"
    ∷ "aliqua" ∷ "enim" ∷ "ad" ∷ "minim" ∷ "veniam" ∷ "quis" ∷ "nostrud" ∷ "exercitation"
    ∷ "ullamco" ∷ "laboris" ∷ "nisi" ∷ "aliquip" ∷ "ex" ∷ "ea" ∷ "commodo" ∷ "consequat" ∷ "duis"
    ∷ "aute" ∷ "irure" ∷ "in" ∷ "reprehenderit" ∷ "voluptate" ∷ "velit" ∷ "esse" ∷ "cillum" ∷ "eu"
    ∷ "fugiat" ∷ "nulla" ∷ "pariatur" ∷ "excepteur" ∷ "sint" ∷ "occaecat" ∷ "cupidatat" ∷ "non"
    ∷ "proident" ∷ "sunt" ∷ "culpa" ∷ "qui" ∷ "officia" ∷ "deserunt" ∷ "mollit" ∷ "anim" ∷ "id"
    ∷ "est" ∷ "laborum" ∷ "perspiciatis" ∷ "unde" ∷ "omnis" ∷ "iste" ∷ "natus" ∷ "error"
    ∷ "voluptatem" ∷ "accusantium" ∷ "doloremque" ∷ "laudantium" ∷ "totam" ∷ "rem" ∷ "aperiam"
    ∷ "eaque" ∷ "ipsa" ∷ "quae" ∷ "ab" ∷ "illo" ∷ "inventore" ∷ "veritatis" ∷ "architecto"
    ∷ "beatae" ∷ "vitae" ∷ "dicta" ∷ "explicabo" ∷ "nemo" ∷ "ipsam" ∷ "quia" ∷ "voluptas"
    ∷ "aspernatur" ∷ "aut" ∷ "odit" ∷ "fugit" ∷ "consequuntur" ∷ "magni" ∷ "dolores" ∷ "ratione"
    ∷ "sequi" ∷ "nesciunt" ∷ "neque" ∷ "porro" ∷ "quisquam" ∷ "dolorem" ∷ "adipisci" ∷ "velit"
    ∷ "numquam" ∷ "eius" ∷ "modi" ∷ "tempora" ∷ "incidunt" ∷ "magnam" ∷ "quaerat" ∷ []

abbrev pub lorem_opener : String
lorem_opener = "Lorem ipsum dolor sit amet, consectetur adipiscing elit."

-- `words[0]` in upper case; the caller has at least eight words.
abbrev pub capitalize_head : List String → List String
capitalize_head [] = []
capitalize_head (w ∷ ws) = upper_first w ∷ ws

unfoldable pub random_lorem_sentence : Gen String
unfolding ◌>>=◌ int_n make_with pick join upper_first
random_lorem_sentence = do
  n ← int_n (pos 9)
  words ← make_with (pos 8 +ℤ n) λ i. pick lorem_words
  pure (join " " (capitalize_head words) ^^ ".")

-- A sentence at position `i`, the opener in front if it is wanted.
unfoldable pub sentence_at : Bool → ℕ → Gen String
unfolding random_lorem_sentence
sentence_at use_opener i = if i == 0 && use_opener then pure lorem_opener else random_lorem_sentence

unfoldable pub generate_lorem_sentences : ℤ → Bool → Gen String
unfolding ◌>>=◌ make_with sentence_at join
generate_lorem_sentences n use_opener = do
  sents ← make_with n (sentence_at use_opener)
  pure (join " " sents)

-- Paragraph `i`: three to seven sentences.
unfoldable pub paragraph_at : Bool → ℕ → Gen String
unfolding ◌>>=◌ int_n make_with sentence_at join
paragraph_at use_opener i = do
  n ← int_n (pos 5)
  sents ← make_with (pos 3 +ℤ n) (sentence_at (i == 0 && use_opener))
  pure (join " " sents)

unfoldable pub generate_lorem_paragraphs : ℤ → Bool → Gen String
unfolding ◌>>=◌ make_with paragraph_at join
generate_lorem_paragraphs n use_opener = do
  paras ← make_with n (paragraph_at use_opener)
  pure (join "\n\n" paras)

-- Text `i`: sentences where their number is positive, else paragraphs.
unfoldable pub lorem_at : ℤ → ℤ → ℕ → Gen String
unfolding generate_lorem_sentences generate_lorem_paragraphs
lorem_at paragraphs sentences i =
    if ltb_ℤ (pos 0) sentences
    then generate_lorem_sentences sentences (i == 0)
    else generate_lorem_paragraphs paragraphs (i == 0)

-- The refusals of `RandomLorem` that follow that of the count.
unfoldable pub check_sizes : ℤ → ℤ → Gen (Unit {0})
check_sizes paragraphs sentences =
    if ltb_ℤ (pos 0) sentences
    then refuse_if (ltb_ℤ sentences (pos 1) || ltb_ℤ (pos 50) sentences)
        (errorf err_invalid_param ("sentences must be between 1 and 50; got " ^^ show sentences))
    else refuse_if (ltb_ℤ paragraphs (pos 1) || ltb_ℤ (pos 10) paragraphs)
        (errorf err_invalid_param ("paragraphs must be between 1 and 10; got " ^^ show paragraphs))

unfoldable pub random_lorem : ℤ → ℤ → ℤ → Gen (List String)
unfolding ◌>>=◌ check_count check_sizes lorem_at make_with
random_lorem count paragraphs sentences = do
  check_count count 10
  check_sizes paragraphs sentences
  make_with count (lorem_at paragraphs sentences)
