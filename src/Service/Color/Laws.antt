-- ===== src/Service/Color/Laws.antt =====
-- The colors that the service gives, in each format.
use text.Mathlib.TextPositions.{len-append}
use zaas.Prelude.{
  ℕ, ◌+◌, ◌<◌, ◌≡◌, ◌⊎◌, ◌↔◌, inl, inr, refl, ap, ◌∙◌, String, true, [], ◌∷◌, length, All, str_eq,
  str_eq_iff, arith,
}
use zaas.Prelude.Int.{ℤ, pos}
use zaas.Prelude.Text.{◌^^◌, len, show}
use zaas.Service.Gen.{ServiceError}
use zaas.Service.Gen.Yields.{
  Yields, Yields-pure, Yields-bind, Yields-weaken, Yields-refuse_if, Yields-int_n, IsBelow,
}
use zaas.Service.Keys.{encode_to_string}
use zaas.Service.Keys.Laws.{len-encode}
use zaas.Service.Number.Laws.{IsBetween, Yields-check_count, Yields-repeat}
use zaas.Service.Float.{Float64}
use zaas.Service.Color.{rgb_to_hsl, format_color, random_color, random_colors}

pub record TakesColor (count : ℤ) (format : String) : Type 0 where
  pub known : (format ≡ "hex") ⊎ ((format ≡ "rgb") ⊎ (format ≡ "hsl"))
  pub counted : IsBetween (pos 1) (pos 100) count

formats :
    (format : String)
    → (str_eq format "hex" ≡ true ↔ format ≡ "hex")
      × (str_eq format "rgb" ≡ true ↔ format ≡ "rgb")
      × (str_eq format "hsl" ≡ true ↔ format ≡ "hsl")
formats format = (str_eq_iff format "hex", str_eq_iff format "rgb", str_eq_iff format "hsl")

module _ (fl : Float64) where
  -- A color of the channels `r`, `g` and `b`, by the format.
  pub data IsColor (format : String) (r g b : ℕ) (s : String) : Type 0 where
    hex :
        format ≡ "hex"
        → s ≡ "#" ^^ encode_to_string (r ∷ g ∷ b ∷ [])
        → len s ≡ 7
        → IsColor format r g b s
    rgb :
        format ≡ "rgb"
        → s ≡ "rgb(" ^^ show (pos r) ^^ ", " ^^ show (pos g) ^^ ", " ^^ show (pos b) ^^ ")"
        → IsColor format r g b s
    hsl :
        (h l sat : ℤ)
        → format ≡ "hsl"
        → rgb_to_hsl fl (pos r) (pos g) (pos b) ≡ (h, sat, l)
        → s ≡ "hsl(" ^^ show h ^^ ", " ^^ show sat ^^ "%, " ^^ show l ^^ "%)"
        → IsColor format r g b s

  -- A color of three bytes.
  abbrev pub IsSomeColor : String → String → Type 0
  IsSomeColor format s = (r g b : ℕ) × (r < 256) × (g < 256) × (b < 256) × IsColor format r g b s

  format_color-IsColor :
      (format : String) (r g b : ℕ)
      → (format ≡ "hex") ⊎ ((format ≡ "rgb") ⊎ (format ≡ "hsl"))
      → r < 256
      → g < 256
      → b < 256
      → IsColor format r g b (format_color fl format (pos r) (pos g) (pos b))
  unfolding format_color
  format_color-IsColor format r g b (inl e) hr hg hb = hex e (rw e refl) (
      rw e (
        len-append "#" (encode_to_string (r ∷ g ∷ b ∷ []))
        ∙ ap (λ n. 1 + n) (len-encode (r ∷ g ∷ b ∷ []) (hr, (hg, (hb, tt))))))
  format_color-IsColor format r g b (inr (inl e)) hr hg hb = rgb e (rw e refl)
  format_color-IsColor format r g b (inr (inr e)) hr hg hb =
      let (h, sat, l) = rgb_to_hsl fl (pos r) (pos g) (pos b) in hsl h l sat e refl (rw e refl)

  some_color :
      (format : String) (r g b : ℤ)
      → (format ≡ "hex") ⊎ ((format ≡ "rgb") ⊎ (format ≡ "hsl"))
      → IsBelow (pos 256) r
      → IsBelow (pos 256) g
      → IsBelow (pos 256) b
      → IsSomeColor format (format_color fl format r g b)
  some_color format r g b known (i, ei, hi) (j, ej, hj) (k, ek, hk) =
      (i, j, k, hi, hj, hk, rw (ei, ej, ek) (format_color-IsColor format i j k known hi hj hk))

  random_color-Yields :
      {Q : ServiceError → Type 0} (format : String)
      → (format ≡ "hex") ⊎ ((format ≡ "rgb") ⊎ (format ≡ "hsl"))
      → Yields (IsSomeColor format) Q (random_color fl format)
  unfolding random_color
  random_color-Yields format known = Yields-bind _ _ (Yields-int_n (pos 256) (omega arith)) λ r hr.
      Yields-bind _ _ (Yields-int_n (pos 256) (omega arith)) λ g hg.
        Yields-bind _ _ (Yields-int_n (pos 256) (omega arith)) λ b hb.
          Yields-pure (format_color fl format r g b) (some_color format r g b known hr hg hb)

  -- `RandomColors` returns the count that was asked for, of colors of three bytes in the format that
  -- was asked for, exactly where there is such a format and the count is in order; else it returns
  -- an error. A color in hex has seven characters. It never panics.
  pub random_colors-Yields :
      (quote : String → String) (count : ℤ) (format : String)
      → Yields
          (λ ss. TakesColor count format × (pos (length ss) ≡ count) × All (IsSomeColor format) ss)
          (λ e. TakesColor count format → ⊥)
          (random_colors fl quote count format)
  unfolding random_colors
  random_colors-Yields quote count format =
      Yields-bind _ _ (Yields-refuse_if _ _ (λ out h. ground (arith, h.known, formats format)))
        λ _ known.
          Yields-bind _ _ (Yields-check_count count 100 (λ bad e h. bad h.counted)) λ _ counted.
            let takes : TakesColor count format = record {
              known = ground (arith, formats format);
              counted = counted;
            } in
            Yields-weaken _ (λ ss h. (takes, h.0, h.1))
              (Yields-repeat (IsSomeColor format) (random_color fl format) count counted
                (random_color-Yields format takes.known))
