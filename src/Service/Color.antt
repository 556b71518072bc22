-- ===== src/Service/Color.antt =====
-- api/internal/service/color.go. The arithmetic of `float64` is the interface `Float64`; `%q` of
-- `fmt` is `quote`.
pub mod Laws
use zaas.Prelude.{ℕ, String, Bool, not, ◌&&◌, ◌||◌, List, [], ◌∷◌, str_eq, if◌then◌else◌}
use zaas.Prelude.Int.{ℤ, pos, pos_part}
use zaas.Prelude.Text.{◌^^◌, show}
use zaas.Service.Gen.{
  errorf, err_invalid_color_format, Gen, pure, ◌>>=◌, ◌>>◌, refuse_if, int_n, make_with,
}
use zaas.Service.Float.{Float64}
use zaas.Service.Keys.{encode_to_string}
use zaas.Service.Number.{check_count}

module _ (fl : Float64) where
  abbrev num : ℕ → fl.F
  num n = fl.of_int (pos n)

  -- `abs64`
  abbrev pub abs64 : fl.F → fl.F
  abs64 x = if fl.is_less x (num 0) then fl.minus (num 0) x else x

  -- The larger of two channels, the first if neither is larger.
  abbrev pub larger : fl.F → fl.F → fl.F
  larger m x = if fl.is_less m x then x else m

  abbrev pub smaller : fl.F → fl.F → fl.F
  smaller m x = if fl.is_less x m then x else m

  -- The hue, before it is divided by six.
  abbrev pub hue_of : fl.F → fl.F → fl.F → fl.F → fl.F → fl.F
  hue_of rf gf bf max_v d =
      if fl.is_equal max_v rf
      then (let h = fl.over (fl.minus gf bf) d in if fl.is_less gf bf then fl.plus h (num 6) else h)
      else (if fl.is_equal max_v gf
          then fl.plus (fl.over (fl.minus bf rf) d) (num 2)
          else fl.plus (fl.over (fl.minus rf gf) d) (num 4))

  unfoldable pub rgb_to_hsl : ℤ → ℤ → ℤ → ℤ × ℤ × ℤ
  rgb_to_hsl r g b =
      let rf = fl.over (fl.of_int r) (num 255) in
      let gf = fl.over (fl.of_int g) (num 255) in
      let bf = fl.over (fl.of_int b) (num 255) in
      let max_v = larger (larger rf gf) bf in
      let min_v = smaller (smaller rf gf) bf in
      let l = fl.over (fl.plus max_v min_v) (num 2) in
      let d = fl.minus max_v min_v in
      let s = fl.over d (fl.minus (num 1) (abs64 (fl.minus (fl.times (num 2) l) (num 1)))) in
      let h = fl.over (hue_of rf gf bf max_v d) (num 6) in
      if fl.is_equal max_v min_v then (pos 0, pos 0, fl.trunc (fl.times l (num 100))) else (
        fl.trunc (fl.times h (num 360)),
        fl.trunc (fl.times s (num 100)),
        fl.trunc (fl.times l (num 100)),
      )

  -- The `switch` on the format; a result that no case writes is the empty string.
  unfoldable pub format_color : String → ℤ → ℤ → ℤ → String
  unfolding rgb_to_hsl encode_to_string
  format_color format r g b =
      if str_eq format "hex"
      then "#" ^^ encode_to_string (pos_part r ∷ pos_part g ∷ pos_part b ∷ [])
      else (if str_eq format "rgb"
          then "rgb(" ^^ show r ^^ ", " ^^ show g ^^ ", " ^^ show b ^^ ")"
          else (if str_eq format "hsl"
              then (let (h, s, l) = rgb_to_hsl r g b in
                  "hsl(" ^^ show h ^^ ", " ^^ show s ^^ "%, " ^^ show l ^^ "%)")
              else ""))

  unfoldable pub random_color : String → Gen String
  unfolding ◌>>=◌ int_n format_color
  random_color format = do
    r ← int_n (pos 256)
    g ← int_n (pos 256)
    b ← int_n (pos 256)
    pure (format_color format r g b)

  unfoldable pub random_colors : (String → String) → ℤ → String → Gen (List String)
  unfolding ◌>>=◌ random_color check_count make_with
  random_colors quote count format = do
    refuse_if (not (str_eq format "hex" || str_eq format "rgb" || str_eq format "hsl")) (
        errorf err_invalid_color_format
          ("format must be one of hex, rgb, hsl; got " ^^ quote format))
    check_count count 100
    make_with count λ i. random_color format
