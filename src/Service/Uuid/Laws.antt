-- ===== src/Service/Uuid/Laws.antt =====
-- The UUIDs that the service gives, in each format.
use Prim.Native.Char.{code}
use text.Mathlib.TextLemmas.{nil-append, cons-append}
use text.Mathlib.TextPositions.{len-append}
use zaas.Prelude.{
  ℕ, ◌≡◌, ◌⊎◌, ◌↔◌, inl, inr, refl, ap, sym, ◌∙◌, String, true, length, All, ◌==◌, str_eq,
  str_eq_iff, arith, Bool-cases,
}
use zaas.Prelude.Int.{ℤ, pos}
use zaas.Prelude.Text.{◌^^◌, len}
use zaas.Service.Gen.{Gen}
use zaas.Service.Gen.Yields.{
  Yields, Yields-pure, Yields-bind, Yields-weaken, Yields-no_error, Yields-refuse_if,
}
use zaas.Service.Number.Laws.{IsBetween, Yields-check_count, Yields-repeat}
use zaas.Service.Uuid.{without_dashes, format_uuid, generate_uuids}

-- A part of a UUID: that many characters, none of which is a dash.
pub record IsPart (n : ℕ) (s : String) : Type 0 where
  pub sized : len s ≡ n
  pub undashed : without_dashes s ≡ s

-- Five parts of 8, 4, 4, 4 and 12 characters.
pub record IsUuid (u : String) : Type 0 where
  pub time_low : String
  pub time_mid : String
  pub time_high : String
  pub clock_seq : String
  pub node : String
  pub parts :
      IsPart 8 time_low
      × IsPart 4 time_mid
      × IsPart 4 time_high
      × IsPart 4 clock_seq
      × IsPart 12 node
  pub printed :
      u ≡ time_low ^^ "-" ^^ time_mid ^^ "-" ^^ time_high ^^ "-" ^^ clock_seq ^^ "-" ^^ node

-- A result for the UUID `u`, by the format.
pub data IsFormatted (format u s : String) : Type 0 where
  standard : format ≡ "standard" → s ≡ u → IsFormatted format u s
  no_dashes : format ≡ "no-dashes" → len s ≡ 32 → without_dashes s ≡ s → IsFormatted format u s
  urn : format ≡ "urn" → s ≡ "urn:uuid:" ^^ u → IsFormatted format u s

pub record TakesUuid (count : ℤ) (format : String) : Type 0 where
  pub known : (format ≡ "standard") ⊎ ((format ≡ "no-dashes") ⊎ (format ≡ "urn"))
  pub counted : IsBetween (pos 1) (pos 100) count

without_dashes-append :
    (s t : String) → without_dashes (s ^^ t) ≡ without_dashes s ^^ without_dashes t
unfolding without_dashes
without_dashes-append String.[] t = rw (nil-append, nil-append) refl
without_dashes-append (String.◌∷◌ c s) t = elim (Bool-cases (code c == b'-')) [
  | inl e ↦ rw (cons-append, without_dashes, e) (without_dashes-append s t)
  | inr e ↦
      rw (cons-append, without_dashes, e, cons-append)
        (ap (String.◌∷◌ c) (without_dashes-append s t))
]

dash_gone : without_dashes "-" ≡ ""
unfolding without_dashes
dash_gone = refl

formats :
    (format : String)
    → (str_eq format "standard" ≡ true ↔ format ≡ "standard")
      × (str_eq format "no-dashes" ≡ true ↔ format ≡ "no-dashes")
      × (str_eq format "urn" ≡ true ↔ format ≡ "urn")
formats format =
    (str_eq_iff format "standard", str_eq_iff format "no-dashes", str_eq_iff format "urn")

-- Without its dashes a UUID is its five parts.
without_dashes-IsUuid :
    (u : String) (h : IsUuid u)
    → without_dashes u ≡ h.time_low ^^ h.time_mid ^^ h.time_high ^^ h.clock_seq ^^ h.node
without_dashes-IsUuid u h =
    let (p₁, p₂, p₃, p₄, p₅) = h.parts in
    ap without_dashes h.printed
    ∙ simp
        (
          without_dashes-append, dash_gone, nil-append, p₁.undashed, p₂.undashed, p₃.undashed,
          p₄.undashed, p₅.undashed,
        )
        refl

joined-IsPart :
    (u : String)
    → IsUuid u
    → (len (without_dashes u) ≡ 32) × (without_dashes (without_dashes u) ≡ without_dashes u)
joined-IsPart u h =
    let (p₁, p₂, p₃, p₄, p₅) = h.parts in
    let e = without_dashes-IsUuid u h in
    (
      ap len e ∙ simp (len-append, p₁.sized, p₂.sized, p₃.sized, p₄.sized, p₅.sized) refl,
      ap without_dashes e
          ∙ simp
              (
                without_dashes-append, p₁.undashed, p₂.undashed, p₃.undashed, p₄.undashed,
                p₅.undashed,
              )
              refl
          ∙ sym e,
    )

format_uuid-IsFormatted :
    (format u : String)
    → (format ≡ "standard") ⊎ ((format ≡ "no-dashes") ⊎ (format ≡ "urn"))
    → IsUuid u
    → IsFormatted format u (format_uuid format u)
unfolding format_uuid
format_uuid-IsFormatted format u (inl e) h = standard e (rw e refl)
format_uuid-IsFormatted format u (inr (inl e)) h =
    let (size, undashed) = joined-IsPart u h in no_dashes e (rw e size) (rw e undashed)
format_uuid-IsFormatted format u (inr (inr e)) h = urn e (rw e refl)

-- If `uuid.New` gives UUIDs, `GenerateUUIDs` returns the count that was asked for, of UUIDs in the
-- format that was asked for, exactly where there is such a format and the count is in order; else
-- it returns an error. Without dashes a UUID has 32 characters. It never panics.
pub generate_uuids-Yields :
    (new_uuid : Gen String) (quote : String → String) (count : ℤ) (format : String)
    → Yields IsUuid (λ e. ⊥) new_uuid
    → Yields
        (λ ss.
          TakesUuid count format
          × (pos (length ss) ≡ count)
          × All (λ s. (u : String) × IsUuid u × IsFormatted format u s) ss)
        (λ e. TakesUuid count format → ⊥)
        (generate_uuids new_uuid quote count format)
unfolding generate_uuids
generate_uuids-Yields new_uuid quote count format given =
    Yields-bind _ _ (Yields-refuse_if _ _ (λ out h. ground (arith, h.known, formats format)))
      λ _ known.
        Yields-bind _ _ (Yields-check_count count 100 (λ bad e h. bad h.counted)) λ _ counted.
          let takes : TakesUuid count format = record {
            known = ground (arith, formats format);
            counted = counted;
          } in
          Yields-weaken _ (λ ss h. (takes, h.0, h.1))
            (Yields-repeat _ _ count counted (
              Yields-bind _ _ (Yields-no_error new_uuid given)
                λ u h. Yields-pure _ (u, h, format_uuid-IsFormatted format u takes.known h)))
