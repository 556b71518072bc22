-- ===== src/Service/Words/Laws.antt =====
-- The word strings that the service gives, and which parameters it takes.
use zaas.Prelude.{
  ℕ, ◌⊎◌, ◌↔◌, inl, inr, ◌≤◌, ◌≡◌, refl, sym, ◌∙◌, String, true, false, List, [], ◌∷◌, some, map,
  length, get_elem?, All, str_eq, str_eq_iff, arith, if◌then◌else◌, Bool-cases,
}
use zaas.Prelude.Int.{pos}
use zaas.Prelude.Text.{len, join}
use zaas.Service.Gen.{ServiceError, pick}
use zaas.Service.Gen.Yields.{
  Yields, Yields-pure, Yields-bind, Yields-weaken, Yields-refuse_if, Yields-pick, Yields-make_with,
  IsFilled, AllFrom-All,
}
use zaas.Service.Number.Laws.{IsBetween, Yields-check_count, Yields-repeat}
use zaas.Service.Wordlists
use zaas.Service.Words.{
  WordsParams, upper_first, pick_two, word_parts, generate_word_string, random_words,
}

-- `w` is on the list.
abbrev pub IsFrom : List String → String → Type 0
IsFrom ws w = (i : ℕ) × (get_elem? ws i ≡ some w)

-- The words of a string, by its style.
pub data HasStyle (p : WordsParams) : List String → Type 0 where
  docker :
      {adjective name : String}
      → p.style ≡ "docker"
      → IsFrom Wordlists.docker_adjectives adjective
      → IsFrom Wordlists.docker_names name
      → HasStyle p (adjective ∷ name ∷ [])
  ubuntu :
      {adjective animal : String}
      → p.style ≡ "ubuntu"
      → IsFrom Wordlists.docker_adjectives adjective
      → IsFrom Wordlists.ubuntu_animals animal
      → HasStyle p (adjective ∷ animal ∷ [])
  random :
      {words : List String}
      → p.style ≡ "random"
      → pos (length words) ≡ p.words
      → All (IsFrom Wordlists.random) words
      → HasStyle p words

pub record TakesWords (p : WordsParams) : Type 0 where
  pub styled :
      ((p.style ≡ "random") × IsBetween (pos 1) (pos 20) p.words)
      ⊎ ((p.style ≡ "docker") ⊎ (p.style ≡ "ubuntu"))
  pub separated : len p.separator ≤ 5
  pub counted : IsBetween (pos 1) (pos 100) p.count

-- A word string: the words joined by the separator, each with its first letter in upper case where
-- that is asked for.
abbrev pub IsWordString : WordsParams → String → Type 0
IsWordString p s =
    (ws : List String) × HasStyle p ws
    × (s ≡ join p.separator (if p.capitalize then map upper_first ws else ws))

is_random :
    (p : WordsParams)
    → TakesWords p
    → str_eq p.style "docker" ≡ false
    → str_eq p.style "ubuntu" ≡ false
    → (p.style ≡ "random") × IsBetween (pos 1) (pos 20) p.words
is_random p h d u =
    ground (arith, h.styled, str_eq_iff p.style "docker", str_eq_iff p.style "ubuntu")

style_tests :
    (p : WordsParams)
    → (str_eq p.style "random" ≡ true ↔ p.style ≡ "random")
      × (str_eq p.style "docker" ≡ true ↔ p.style ≡ "docker")
      × (str_eq p.style "ubuntu" ≡ true ↔ p.style ≡ "ubuntu")
style_tests p =
    (str_eq_iff p.style "random", str_eq_iff p.style "docker", str_eq_iff p.style "ubuntu")

-- A style is one string only.
words_fit :
    (p : WordsParams) → TakesWords p → p.style ≡ "random" → IsBetween (pos 1) (pos 20) p.words
words_fit p h e = elim h.styled [
  | inl (_, fit) ↦ fit
  | inr (inl e') ↦ let q : str_eq "random" "docker" ≡ true = (str_eq_iff _ _).1 (sym e ∙ e') in cc
  | inr (inr e') ↦ let q : str_eq "random" "ubuntu" ≡ true = (str_eq_iff _ _).1 (sym e ∙ e') in cc
]

module _ {Q : ServiceError → Type 0} where
  Yields-pick_two :
      (xs ys : List String) (R : List String → Type 0)
      → IsFilled xs
      → IsFilled ys
      → ((a b : String) → IsFrom xs a → IsFrom ys b → R (a ∷ b ∷ []))
      → Yields R Q (pick_two xs ys)
  unfolding pick_two
  Yields-pick_two xs ys R hx hy f =
      Yields-bind _ _ (Yields-pick xs hx)
        λ a ha. Yields-bind _ _ (Yields-pick ys hy) λ b hb. Yields-pure (a ∷ b ∷ []) (f a b ha hb)

  word_parts-Yields : (p : WordsParams) → TakesWords p → Yields (HasStyle p) Q (word_parts p)
  unfolding word_parts
  word_parts-Yields p h = elim (Bool-cases (str_eq p.style "docker")) [
    | inl e ↦ rw e (
        Yields-pick_two Wordlists.docker_adjectives Wordlists.docker_names (HasStyle p) tt tt
          λ a b ha hb. docker ((str_eq_iff p.style "docker").0 e) ha hb)
    | inr not_docker ↦ elim (Bool-cases (str_eq p.style "ubuntu")) [
      | inl e ↦
          rw (not_docker, e)
            (Yields-pick_two Wordlists.docker_adjectives Wordlists.ubuntu_animals (HasStyle p) tt tt
              λ a b ha hb. ubuntu ((str_eq_iff p.style "ubuntu").0 e) ha hb)
      | inr not_ubuntu ↦
          let (styled, words) = is_random p h not_docker not_ubuntu in
          rw (not_docker, not_ubuntu)
            (Yields-weaken _ (λ ws k. random styled k.0 (AllFrom-All _ 0 ws k.1))
              (Yields-make_with (λ i. IsFrom Wordlists.random) (λ i. pick Wordlists.random) p.words
                (ground (arith, words)) (λ i. Yields-pick Wordlists.random tt)))
    ]
  ]

  generate_word_string-Yields :
      (p : WordsParams) → TakesWords p → Yields (IsWordString p) Q (generate_word_string p)
  unfolding generate_word_string
  generate_word_string-Yields p h =
      Yields-bind _ _ (word_parts-Yields p h) λ ws k. Yields-pure _ (ws, k, refl)

-- `RandomWords` returns the count that was asked for, of word strings in the style that was asked
-- for, exactly where the style, the separator, the number of words and the count are in order; else
-- it returns an error. It never panics.
pub random_words-Yields :
    (quote : String → String) (p : WordsParams)
    → Yields
        (λ ss. TakesWords p × (pos (length ss) ≡ p.count) × All (IsWordString p) ss)
        (λ e. TakesWords p → ⊥)
        (random_words quote p)
unfolding random_words
random_words-Yields quote p =
    Yields-bind _ _ (Yields-refuse_if _ _ (λ out h. ground (arith, h.styled, style_tests p)))
      λ _ styled.
        Yields-bind _ _ (Yields-refuse_if _ _ (λ out h. ground (arith, h.separated))) λ _ separated.
          Yields-bind _ _
            (Yields-refuse_if _ _ (λ out h. ground (arith, words_fit p h, style_tests p)))
            λ _ sized.
              Yields-bind _ _ (Yields-check_count p.count 100 (λ bad e h. bad h.counted))
                λ _ counted.
                  let takes : TakesWords p = record {
                    styled = ground (arith, style_tests p);
                    separated = ground arith;
                    counted = counted;
                  } in
                  Yields-weaken _ (λ ss h. (takes, h.0, h.1))
                    (Yields-repeat (IsWordString p) _ p.count counted
                      (generate_word_string-Yields p takes))
