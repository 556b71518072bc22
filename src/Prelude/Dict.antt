-- ===== src/Prelude/Dict.antt =====
-- A Go map with string keys, as the function that a read computes.
use zaas.Prelude.Tests.{str_eq, str_eq_iff, if◌then◌else◌}
use Prim.Native.String.{String}
use mathlib.Core.Path.{◌≡◌}
use mathlib.Core.Logic.{◌≢◌}
use mathlib.Core.Option.{Option, none, some}
use native.Mathlib.Omega.{arith}

abbrev pub Dict : Type 0 → Type 0
Dict V = String → Option V

module _ {V : Type 0} where
  abbrev pub empty : Dict V
  empty _ = none

  -- `m[key] = v`
  abbrev pub insert : String → V → Dict V → Dict V
  insert key v m j = if str_eq key j then some v else m j

  pub insert_self : (key : String) (v : V) (m : Dict V) → insert key v m key ≡ some v
  insert_self key v m = ground (arith, str_eq_iff key key)

  pub insert_ne : (key j : String) (v : V) (m : Dict V) → key ≢ j → insert key v m j ≡ m j
  insert_ne key j v m h = ground (arith, str_eq_iff key j)
