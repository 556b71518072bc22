-- ===== src/Service/Lorem/Laws.antt =====
-- The lorem ipsum texts that the service gives, and which parameters it takes.
use zaas.Prelude.{
  ℕ, ◌≡◌, ◌⊎◌, inl, inr, refl, sym, subst, String, Bool, ◌&&◌, List, length, All, ◌==◌, arith,
  if◌then◌else◌, Bool-cases,
}
use zaas.Prelude.Int.{ℤ, pos, ◌+ℤ◌, ◌≤ℤ◌, ltb_ℤ, int_laws}
use zaas.Prelude.Text.{◌^^◌, join}
use zaas.Service.Gen.{ServiceError, pure, pick}
use zaas.Service.Gen.Yields.{
  Yields, Yields-pure, Yields-bind, Yields-weaken, Yields-if, Yields-refuse_if, Yields-int_n,
  Yields-pick, Yields-make_with, AllFrom, AllFrom-All,
}
use zaas.Service.Number.Laws.{IsBetween, Yields-check_count}
use zaas.Service.Words.Laws.{IsFrom}
use zaas.Service.Lorem.{
  lorem_words, lorem_opener, capitalize_head, random_lorem_sentence, sentence_at,
  generate_lorem_sentences, paragraph_at, generate_lorem_paragraphs, lorem_at, check_sizes,
  random_lorem,
}

-- A sentence: 8 to 16 words of the vocabulary, the first in upper case, with a full stop.
pub record IsSentence (s : String) : Type 0 where
  pub words : List String
  pub sized : IsBetween (pos 8) (pos 16) (pos (length words))
  pub known : All (IsFrom lorem_words) words
  pub printed : s ≡ join " " (capitalize_head words) ^^ "."

-- Sentence `i`: the opener where the text begins with it.
abbrev pub SentenceAt : Bool → ℕ → String → Type 0
SentenceAt use_opener i s = if i == 0 && use_opener then s ≡ lorem_opener else IsSentence s

-- A number of sentences in a row.
pub record IsRun (low high : ℤ) (use_opener : Bool) (s : String) : Type 0 where
  pub sentences : List String
  pub sized : IsBetween low high (pos (length sentences))
  pub each : AllFrom (SentenceAt use_opener) 0 sentences
  pub printed : s ≡ join " " sentences

-- A number of paragraphs of 3 to 7 sentences.
pub record IsProse (n : ℤ) (use_opener : Bool) (s : String) : Type 0 where
  pub paragraphs : List String
  pub sized : pos (length paragraphs) ≡ n
  pub each : AllFrom (λ i. IsRun (pos 3) (pos 7) (i == 0 && use_opener)) 0 paragraphs
  pub printed : s ≡ join "\n\n" paragraphs

abbrev pub LoremAt : ℤ → ℤ → ℕ → String → Type 0
LoremAt paragraphs sentences i s =
    if ltb_ℤ (pos 0) sentences
    then IsRun sentences sentences (i == 0) s
    else IsProse paragraphs (i == 0) s

pub record TakesLorem (count paragraphs sentences : ℤ) : Type 0 where
  pub counted : IsBetween (pos 1) (pos 10) count
  pub sized :
      IsBetween (pos 1) (pos 50) sentences
      ⊎ ((sentences ≤ℤ pos 0) × IsBetween (pos 1) (pos 10) paragraphs)

IsBetween-of : (low high : ℤ) {a b : ℤ} → a ≡ b → IsBetween low high b → IsBetween low high a
IsBetween-of low high e h = subst (IsBetween low high) (sym e) h

module _ {Q : ServiceError → Type 0} where
  random_lorem_sentence-Yields : Yields IsSentence Q random_lorem_sentence
  unfolding random_lorem_sentence
  random_lorem_sentence-Yields =
      Yields-bind _ _ (Yields-int_n (pos 9) (omega arith)) λ n (k, e, below).
        Yields-bind _ _
          (Yields-make_with (λ i. IsFrom lorem_words) (λ i. pick lorem_words) (pos 8 +ℤ n)
            (rw e (grind int_laws)) (λ i. Yields-pick lorem_words tt))
          λ words h. Yields-pure _ record {
            words = words;
            sized = IsBetween-of (pos 8) (pos 16) h.0 (rw e (grind int_laws));
            known = AllFrom-All _ 0 words h.1;
            printed = refl;
          }

  sentence_at-Yields :
      (use_opener : Bool) (i : ℕ) → Yields (SentenceAt use_opener i) Q (sentence_at use_opener i)
  unfolding sentence_at
  sentence_at-Yields use_opener i =
      Yields-if (i == 0 && use_opener) (pure lorem_opener) random_lorem_sentence
        (λ e. Yields-pure lorem_opener refl) (λ e. random_lorem_sentence-Yields)

  generate_lorem_sentences-Yields :
      (n : ℤ) (use_opener : Bool)
      → pos 1 ≤ℤ n
      → Yields (IsRun n n use_opener) Q (generate_lorem_sentences n use_opener)
  unfolding generate_lorem_sentences
  generate_lorem_sentences-Yields n use_opener h =
      Yields-bind _ _
        (Yields-make_with (SentenceAt use_opener) (sentence_at use_opener) n (ground arith)
          (sentence_at-Yields use_opener))
        λ sents k. Yields-pure _ record {
          sentences = sents;
          sized = IsBetween-of n n k.0 (ground arith);
          each = k.1;
          printed = refl;
        }

  paragraph_at-Yields :
      (use_opener : Bool) (i : ℕ)
      → Yields (IsRun (pos 3) (pos 7) (i == 0 && use_opener)) Q (paragraph_at use_opener i)
  unfolding paragraph_at
  paragraph_at-Yields use_opener i =
      Yields-bind _ _ (Yields-int_n (pos 5) (omega arith)) λ n (k, e, below).
        Yields-bind _ _
          (Yields-make_with (SentenceAt (i == 0 && use_opener)) (sentence_at (i == 0 && use_opener))
            (pos 3 +ℤ n) (rw e (grind int_laws)) (sentence_at-Yields (i == 0 && use_opener)))
          λ sents h. Yields-pure _ record {
            sentences = sents;
            sized = IsBetween-of (pos 3) (pos 7) h.0 (rw e (grind int_laws));
            each = h.1;
            printed = refl;
          }

  generate_lorem_paragraphs-Yields :
      (n : ℤ) (use_opener : Bool)
      → pos 1 ≤ℤ n
      → Yields (IsProse n use_opener) Q (generate_lorem_paragraphs n use_opener)
  unfolding generate_lorem_paragraphs
  generate_lorem_paragraphs-Yields n use_opener h =
      Yields-bind _ _
        (Yields-make_with (λ i. IsRun (pos 3) (pos 7) (i == 0 && use_opener))
          (paragraph_at use_opener) n (ground arith) (paragraph_at-Yields use_opener))
        λ paras k.
          Yields-pure _ record { paragraphs = paras; sized = k.0; each = k.1; printed = refl }

  lorem_at-Yields :
      (count paragraphs sentences : ℤ) (i : ℕ)
      → TakesLorem count paragraphs sentences
      → Yields (LoremAt paragraphs sentences i) Q (lorem_at paragraphs sentences i)
  unfolding lorem_at
  lorem_at-Yields count paragraphs sentences i h =
      Yields-if (ltb_ℤ (pos 0) sentences) (generate_lorem_sentences sentences (i == 0))
        (generate_lorem_paragraphs paragraphs (i == 0))
        (λ e. generate_lorem_sentences-Yields sentences (i == 0) (ground arith))
        (λ e. generate_lorem_paragraphs-Yields paragraphs (i == 0) (ground (arith, h.sized)))

check_sizes-Yields :
    (count paragraphs sentences : ℤ)
    → IsBetween (pos 1) (pos 10) count
    → Yields
        (λ _. TakesLorem count paragraphs sentences)
        (λ e. TakesLorem count paragraphs sentences → ⊥)
        (check_sizes paragraphs sentences)
unfolding check_sizes
check_sizes-Yields count paragraphs sentences counted =
    elim (Bool-cases (ltb_ℤ (pos 0) sentences)) [
      | inl e ↦ rw e (
          Yields-weaken _ (λ _ fits. record { counted = counted; sized = inl (ground arith) })
            (Yields-refuse_if _ _ (λ out h. ground (arith, h.sized))))
      | inr e ↦ rw e (
          Yields-weaken _ (λ _ fits. record { counted = counted; sized = inr (ground arith) })
            (Yields-refuse_if _ _ (λ out h. ground (arith, h.sized))))
    ]

-- `RandomLorem` returns the count that was asked for, exactly where the parameters are in order,
-- else an error, and it never panics. A text has the number of sentences that was asked for if that
-- is positive, else the number of paragraphs, each of 3 to 7 sentences. The first text begins with
-- the opener; every other sentence has 8 to 16 words of the vocabulary, the first in upper case, and
-- ends in a full stop.
pub random_lorem-Yields :
    (count paragraphs sentences : ℤ)
    → Yields
        (λ texts.
          TakesLorem count paragraphs sentences
          × (pos (length texts) ≡ count)
          × AllFrom (LoremAt paragraphs sentences) 0 texts)
        (λ e. TakesLorem count paragraphs sentences → ⊥)
        (random_lorem count paragraphs sentences)
unfolding random_lorem
random_lorem-Yields count paragraphs sentences =
    Yields-bind _ _ (Yields-check_count count 10 (λ bad e h. bad h.counted)) λ _ counted.
      Yields-bind _ _ (check_sizes-Yields count paragraphs sentences counted) λ _ takes.
        Yields-weaken _ (λ texts h. (takes, h.0, h.1))
          (Yields-make_with (LoremAt paragraphs sentences) (lorem_at paragraphs sentences) count
            (ground (arith, counted)) (λ i. lorem_at-Yields count paragraphs sentences i takes))
