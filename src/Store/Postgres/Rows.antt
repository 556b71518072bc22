-- ===== src/Store/Postgres/Rows.antt =====
-- Selecting and updating rows.
use zaas.Prelude.{
  ◌≡◌, refl, String, Bool, true, false, List, [], ◌∷◌, ◌++◌, Option, none, some, inl, inr, arith,
  str_eq, str_eq_iff, if◌then◌else◌, ◌==◌, Bool-cases, if_intro,
}
use zaas.Store.Postgres.{first_row, update_rows, rows_affected}

module _ {A : Type 0} where
  pub first_row_sound : (p : A → Bool) (xs : List A) (x : A) → first_row p xs ≡ some x → p x ≡ true
  unfolding first_row
  first_row_sound p [] x h = cc
  first_row_sound p (y ∷ xs) x h = elim (Bool-cases (p y)) [
    | inl e ↦ let same : some y ≡ some x = rw e at h in ground (arith)
    | inr e ↦ first_row_sound p xs x (rw e at h)
  ]

  abbrev pub or_first : Option A → Option A → Option A
  or_first none o = o
  or_first (some x) o = some x

  pub first_row-append :
      (p : A → Bool) (xs ys : List A)
      → first_row p (xs ++ ys) ≡ or_first (first_row p xs) (first_row p ys)
  unfolding first_row
  first_row-append p [] ys = refl
  first_row-append p (x ∷ xs) ys = ground (arith, first_row-append p xs ys)

  -- No row passes after the update, if none does by itself.
  pub first_row_cleared :
      (p q : A → Bool) (f : A → A) (xs : List A)
      → ((x : A) → p (if q x then f x else x) ≡ false)
      → first_row p (update_rows q f xs) ≡ none
  unfolding first_row update_rows
  first_row_cleared p q f [] h = refl
  first_row_cleared p q f (x ∷ xs) h = rw (h x) (first_row_cleared p q f xs h)

  -- An update that makes no row pass leaves none to be found.
  pub first_row_still_none :
      (p q : A → Bool) (f : A → A) (xs : List A)
      → ((x : A) → p x ≡ false → p (if q x then f x else x) ≡ false)
      → first_row p xs ≡ none
      → first_row p (update_rows q f xs) ≡ none
  unfolding first_row update_rows
  first_row_still_none p q f [] h e = refl
  first_row_still_none p q f (x ∷ xs) h e = elim (Bool-cases (p x)) [
    | inl t ↦ let bad : some x ≡ none = rw t at e in cc
    | inr t ↦ rw (h x t) (first_row_still_none p q f xs h (rw t at e))
  ]

  -- The first row that is updated is the first one of those that only the update makes pass.
  pub first_row_updated :
      (p q : A → Bool) (f : A → A) (xs : List A) (x : A)
      → ((y : A) → q (f y) ≡ true)
      → first_row q xs ≡ none
      → first_row p xs ≡ some x
      → first_row q (update_rows p f xs) ≡ some (f x)
  unfolding first_row update_rows
  first_row_updated p q f [] x h n e = cc
  first_row_updated p q f (y ∷ xs) x h n e = elim (Bool-cases (q y)) [
    | inl t ↦ let bad : some y ≡ none = rw t at n in cc
    | inr t ↦ elim (Bool-cases (p y)) [
      | inl here ↦ let same : some y ≡ some x = rw here at e in rw (here, h y) (ground arith)
      | inr later ↦ rw (later, t) (first_row_updated p q f xs x h (rw t at n) (rw later at e))
    ]
  ]

  -- A weaker test finds nothing where a stronger one does not.
  pub first_row-none_of :
      (p q : A → Bool) (xs : List A)
      → ((x : A) → p x ≡ false → q x ≡ false)
      → first_row p xs ≡ none
      → first_row q xs ≡ none
  unfolding first_row
  first_row-none_of p q [] h e = refl
  first_row-none_of p q (x ∷ xs) h e = elim (Bool-cases (p x)) [
    | inl t ↦ let bad : some x ≡ none = rw t at e in cc
    | inr t ↦ rw (h x t) (first_row-none_of p q xs h (rw t at e))
  ]

  pub rows_affected-none :
      (p : A → Bool) (xs : List A) → first_row p xs ≡ none → rows_affected p xs ≡ 0
  unfolding first_row rows_affected
  rows_affected-none p [] e = refl
  rows_affected-none p (x ∷ xs) e = ground (arith, rows_affected-none p xs)

  pub rows_affected-some :
      (p : A → Bool) (xs : List A) (x : A)
      → first_row p xs ≡ some x
      → (rows_affected p xs == 0) ≡ false
  unfolding first_row rows_affected
  rows_affected-some p [] x e = cc
  rows_affected-some p (y ∷ xs) x e = ground (arith, rows_affected-some p xs x)

  -- No two rows have the same key.
  abbrev pub HasUnique : (A → String) → List A → Type 0
  HasUnique key [] = Unit
  HasUnique key (x ∷ xs) = (first_row (λ y. str_eq (key y) (key x)) xs ≡ none) × HasUnique key xs

module _ {A : Type 0} where
  pub HasUnique-append :
      (key : A → String) (xs : List A) (x : A)
      → HasUnique key xs
      → first_row (λ y. str_eq (key y) (key x)) xs ≡ none
      → HasUnique key (xs ++ x ∷ [])
  unfolding first_row
  HasUnique-append key [] x h e = (refl, tt)
  HasUnique-append key (y ∷ xs) x h e = elim (Bool-cases (str_eq (key y) (key x))) [
    | inl t ↦ let bad : some y ≡ none = rw t at e in cc
    | inr t ↦
        let other : str_eq (key x) (key y) ≡ false =
          ground (arith, str_eq_iff (key x) (key y), str_eq_iff (key y) (key x)) in
        (rw (first_row-append, h.0, other) refl, HasUnique-append key xs x h.1 (rw t at e))
  ]

  key_kept :
      (key : A → String) (b : Bool) (f : A → A) (x : A)
      → key (f x) ≡ key x
      → key (if b then f x else x) ≡ key x
  key_kept key b f x h = if_intro (λ y. key y ≡ key x) b h refl

  pub HasUnique-update :
      (key : A → String) (q : A → Bool) (f : A → A) (xs : List A)
      → ((x : A) → key (f x) ≡ key x)
      → HasUnique key xs
      → HasUnique key (update_rows q f xs)
  unfolding update_rows
  HasUnique-update key q f [] h u = tt
  HasUnique-update key q f (x ∷ xs) h u =
      let kept = λ (y : A). key_kept key (q y) f y (h y) in
      (
        rw (kept x)
            (first_row_still_none (λ y. str_eq (key y) (key x)) q f xs (λ y e. rw (kept y) e) u.0),
        HasUnique-update key q f xs h u.1,
      )
