-- ===== src/Handlers/Endpoints/Answers.antt =====
-- What the random endpoints answer: 200 with the results, or 400.
use zaas.Prelude.{
  ◌≡◌, ◌⊎◌, inl, inr, refl, String, false, List, [], ◌∷◌, Option, none, some, length, All, arith,
}
use zaas.Prelude.Int.{ℤ, pos}
use zaas.Http.{Request, Response, Json, text, int, boolean}
use zaas.Service.Gen.{ServiceError, Run, done, failed, panicked, Gen}
use zaas.Service.Gen.Yields.{Yields, Ends, Yields-weaken}
use zaas.Service.Number.{random_ints, roll_dice}
use zaas.Service.Number.Laws.{
  DiceParams, NumberParams, IsBetween, roll_dice-Yields, random_ints-Yields,
}
use zaas.Service.Words.Laws.{TakesWords, IsWordString, random_words-Yields}
use zaas.Service.Words.{WordsParams, random_words}
use zaas.OpenApi.{GenerateWordsParams}
use zaas.Handlers.Respond.{write_results, default_ptr}
use zaas.Handlers.Endpoints.{
  invalid_param, answer, answer_run, roll_dice_handler, generate_ints, resolve_words,
  generate_words,
}

-- The answer to a request whose parameters `Takes` says are in order: 200 with results of which
-- `P` holds, or 400 with the error's text.
pub data Answered {T : Type 0} (to_json : T → Json) (w : Response) (r : Request)
    (params : List (String × Json)) (Takes : Type 0) (P : List T → Type 0) (out : Response)
    : Type 0 where
  results :
      (xs : List T)
      → Takes
      → P xs
      → out ≡ write_results to_json w r xs params
      → Answered to_json w r params Takes P out
  refused :
      (e : ServiceError)
      → (Takes → ⊥)
      → out ≡ invalid_param w r e
      → Answered to_json w r params Takes P out

module _ {T : Type 0} (to_json : T → Json) (w : Response) (r : Request)
    (params : List (String × Json)) (Takes : Type 0) (P : List T → Type 0) where
  answer_run-Ends :
      (m : Run (List T))
      → Ends (λ xs. Takes × P xs) (λ e. Takes → ⊥) m
      → Ends (Answered to_json w r params Takes P) (λ e. ⊥) (answer_run to_json w r params m)
  answer_run-Ends (done xs g) h = results xs h.0 h.1 refl
  answer_run-Ends (failed e g) h = refused e h refl
  answer_run-Ends panicked h = elim h [ ]

  pub answer-Yields :
      (m : Gen (List T))
      → Yields (λ xs. Takes × P xs) (λ e. Takes → ⊥) m
      → Yields (Answered to_json w r params Takes P) (λ e. ⊥) (answer to_json w r params m)
  unfolding answer
  answer-Yields m h = record { at = λ g. answer_run-Ends (m g) (h.at g) }

-- What a service gives, as `Answered` groups it.
pub Yields-regroup :
    {T : Type 0} {Takes : Type 0} {P Q : T → Type 0} {E : ServiceError → Type 0} {m : Gen T}
    → Yields (λ xs. Takes × P xs × Q xs) E m
    → Yields (λ xs. Takes × (P xs × Q xs)) E m
Yields-regroup h = Yields-weaken _ (λ xs k. (k.0, (k.1, k.2))) h

-- The count that was asked for, of elements with `P`.
abbrev pub Counted : {T : Type 0} → ℤ → (T → Type 0) → List T → Type 0
Counted k P xs = (pos (length xs) ≡ k) × All P xs

-- `RollDice` answers 200 with the rolls where the parameters, with 6 and 1 for those that are left
-- out, are in order, and 400 else. It never panics.
pub roll_dice_handler-Yields :
    (sides count : Option ℤ) (w : Response) (r : Request)
    → let n = default_ptr sides (pos 6) in
      let k = default_ptr count (pos 1) in
      Yields
        (Answered int w r
          (("sides", int n) ∷ ("count", int k) ∷ [])
          (DiceParams n k)
          (Counted k (IsBetween (pos 1) n)))
        (λ e. ⊥)
        (roll_dice_handler sides count w r)
unfolding roll_dice_handler
roll_dice_handler-Yields sides count w r =
    let n = default_ptr sides (pos 6) in
    let k = default_ptr count (pos 1) in
    answer-Yields int w r _ (DiceParams n k) (Counted k (IsBetween (pos 1) n)) (roll_dice n k)
      (Yields-regroup (roll_dice-Yields n k))

-- `GenerateNumber`, with `float` false, answers 200 with integers from `min` to `max`, which are 0
-- and 100 where they are left out, or 400 where the parameters are not in order. It never panics.
pub generate_ints-Yields :
    (min max count : Option ℤ) (w : Response) (r : Request)
    → let lo = default_ptr min (pos 0) in
      let hi = default_ptr max (pos 100) in
      let k = default_ptr count (pos 1) in
      Yields
        (Answered int w r
          (("min", int lo) ∷ ("max", int hi) ∷ ("count", int k) ∷ ("float", boolean false) ∷ [])
          (NumberParams lo hi k)
          (Counted k (IsBetween lo hi)))
        (λ e. ⊥)
        (generate_ints min max count w r)
unfolding generate_ints
generate_ints-Yields min max count w r =
    let lo = default_ptr min (pos 0) in
    let hi = default_ptr max (pos 100) in
    let k = default_ptr count (pos 1) in
    answer-Yields int w r _ (NumberParams lo hi k) (Counted k (IsBetween lo hi))
      (random_ints lo hi k) (Yields-regroup (random_ints-Yields lo hi k))

abbrev pub words_meta : WordsParams → List (String × Json)
words_meta p =
    ("style", text p.style)
    ∷ ("words", int p.words)
    ∷ ("separator", text p.separator)
    ∷ ("capitalize", boolean p.capitalize)
    ∷ ("count", int p.count)
    ∷ []

-- `GenerateWords` answers 200 with word strings in the style that was asked for, or 400 where the
-- parameters, with the defaults of their style, are not in order. It never panics.
pub generate_words-Yields :
    (quote : String → String) (q : GenerateWordsParams) (w : Response) (r : Request)
    → Yields
        (Answered text w r
          (words_meta (resolve_words q))
          (TakesWords (resolve_words q))
          (Counted (resolve_words q).count (IsWordString (resolve_words q))))
        (λ e. ⊥)
        (generate_words quote q w r)
unfolding generate_words
generate_words-Yields quote q w r =
    let p = resolve_words q in
    answer-Yields text w r _ (TakesWords p) (Counted p.count (IsWordString p))
      (random_words quote p) (Yields-regroup (random_words-Yields quote p))

-- Without parameters `GenerateWords` asks for what the service takes, whatever the style, if there
-- is such a style.
pub resolve_words-TakesWords :
    (style : String)
    → (style ≡ "random") ⊎ ((style ≡ "docker") ⊎ (style ≡ "ubuntu"))
    → TakesWords (
        resolve_words record {
          style = some style;
          words = none;
          separator = none;
          capitalize = none;
          count = none;
        })
resolve_words-TakesWords style (inl e) = record {
  styled = inl (e, omega arith);
  separated = rw e (omega arith);
  counted = omega arith;
}
resolve_words-TakesWords style (inr h) = record {
  styled = inr h;
  separated = elim h [ inl e ↦ rw e (omega arith) | inr e ↦ rw e (omega arith) ];
  counted = omega arith;
}
