-- ===== src/Service/Uuid.antt =====
-- api/internal/service/uuid.go. `uuid.New().String()` of github.com/google/uuid is the parameter
-- `new_uuid`, and `%q` of `fmt` is `quote`.
pub mod Laws
pub mod Sample
use Prim.Native.Char.{code}
use Prim.Native.String
use zaas.Prelude.{String, not, ◌||◌, List, ◌==◌, str_eq, if◌then◌else◌}
use zaas.Prelude.Int.{ℤ}
use zaas.Prelude.Text.{◌^^◌}
use zaas.Service.Gen.{errorf, err_invalid_format, Gen, pure, ◌>>=◌, ◌>>◌, refuse_if, make_with}
use zaas.Service.Number.{check_count}

-- `strings.ReplaceAll(s, "-", "")`
unfoldable pub without_dashes : String → String
without_dashes String.[] = String.[]
without_dashes (String.◌∷◌ c s) =
    let rest = without_dashes s in if code c == b'-' then rest else String.◌∷◌ c rest

-- The `switch` on the format; a result that no case writes is the empty string.
unfoldable pub format_uuid : String → String → String
unfolding without_dashes
format_uuid format u =
    if str_eq format "standard"
    then u
    else (if str_eq format "no-dashes"
        then without_dashes u
        else (if str_eq format "urn" then "urn:uuid:" ^^ u else ""))

module _ (new_uuid : Gen String) (quote : String → String) where
  unfoldable pub generate_uuids : ℤ → String → Gen (List String)
  unfolding ◌>>=◌ format_uuid check_count make_with
  generate_uuids count format = do
    refuse_if (not (str_eq format "standard" || str_eq format "no-dashes" || str_eq format "urn")) (
        errorf err_invalid_format
          ("format must be one of standard, no-dashes, urn; got " ^^ quote format))
    check_count count 100
    make_with count λ i. do u ← new_uuid; pure (format_uuid format u)
