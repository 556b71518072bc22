-- ===== src/Prelude/Lens.antt =====
-- A part of the world that one component keeps.
use mathlib.Core.Path.{◌≡◌}

pub record Lens (S A : Type 0) : Type 0 where
  pub get : S → A
  pub put : A → S → S
  pub get-put : (a : A) (s : S) → get (put a s) ≡ a
