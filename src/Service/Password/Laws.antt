-- ===== src/Service/Password/Laws.antt =====
-- The passwords that the service gives, and which parameters it takes.
use zaas.Prelude.{◌≡◌, String, Bool, true, ◌||◌, List, length, All}
use zaas.Prelude.Int.{ℤ, pos}
use zaas.Prelude.Text.{join}
use zaas.Service.Gen.Yields.{Yields}
use zaas.Service.Number.Laws.{IsBetween}
use zaas.Service.Words.Laws.{IsFrom}

pub record TakesPassword (count size : ℤ) (uppercase lowercase digits symbols : Bool) : Type 0 where
  pub some_set : uppercase || lowercase || digits || symbols ≡ true
  pub sized : IsBetween (pos 8) (pos 128) size
  pub counted : IsBetween (pos 1) (pos 100) count

-- A password: that many characters, each of the sets.
pub record IsPassword (set : List String) (size : ℤ) (s : String) : Type 0 where
  pub letters : List String
  pub sized : pos (length letters) ≡ size
  pub each : All (IsFrom set) letters
  pub printed : s ≡ join "" letters
