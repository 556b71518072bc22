-- ===== src/Start/Serves.antt =====
-- When the server of api/cmd/server/main.go begins to serve, and with what.
pub mod Run
use mathlib.Core.List.{append-nil}
use zaas.Prelude.{
  ◌≡◌, ◌⊎◌, inl, inr, refl, ap, ◌∙◌, String, Bool, true, false, not, List, [], ◌∷◌, ◌++◌, Option,
  none, some, str_eq, if◌then◌else◌,
}
use zaas.Prelude.Text.{◌^^◌}
use zaas.Config.{Config}
use zaas.Start.{
  Resource, redis_client, memory_limiter, Backend, redis_backend, memory_backend, Wiring, Effect,
  opened, closed, listening, Outside, Res, ok, err, Proc, ◌>>=◌, ◌>>◌, return, tell, wrap,
  with_defer,
}
use zaas.Start.Telemetry.{Params, init}
use zaas.Start.Telemetry
use zaas.Start.Connect.{connect_and_migrate, new_redis_rate_limiter}
use zaas.Start.Main.{
  init_store, close_db, init_email, init_rate_limiter, close_rl, ended, serve, run_with, run,
}

-- The addresses that are listened on, and what the router there is given.
abbrev pub listens : List Effect → List (String × Wiring)
listens [] = []
listens (opened r ∷ es) = listens es
listens (closed r ∷ es) = listens es
listens (listening port wiring ∷ es) = (port, wiring) ∷ listens es

pub listens-append : (es fs : List Effect) → listens (es ++ fs) ≡ listens es ++ listens fs
listens-append [] fs = refl
listens-append (opened r ∷ es) fs = listens-append es fs
listens-append (closed r ∷ es) fs = listens-append es fs
listens-append (listening port wiring ∷ es) fs =
    ap (λ xs. (port, wiring) ∷ xs) (listens-append es fs)

around :
    (es fs cs : List Effect)
    → listens es ≡ []
    → listens cs ≡ []
    → listens (es ++ (fs ++ cs)) ≡ listens fs
around es fs cs h k =
    listens-append es (fs ++ cs)
    ∙ ap (λ xs. xs ++ listens (fs ++ cs)) h
    ∙ listens-append fs cs
    ∙ ap (λ xs. listens fs ++ xs) k
    ∙ append-nil (listens fs)

module _ {A : Type 0} where
  abbrev pub ResultHolds : (A → Type 0) → Res A → Type 0
  ResultHolds P (ok a) = P a
  ResultHolds P (err e) = Unit

  -- A procedure that does not listen, and whose result is as it should be.
  pub record SetsUp (P : A → Type 0) (m : Proc A) : Type 0 where
    pub quiet : listens m.1 ≡ []
    pub result : ResultHolds P m.0

  pub SetsUp-wrap :
      (P : A → Type 0) (what : String) (m : Proc A) → SetsUp P m → SetsUp P (wrap what m)
  SetsUp-wrap P what (ok a, es) h = h
  SetsUp-wrap P what (err e, es) h = record { quiet = h.quiet; result = tt }

module _ (cfg : Config) (out : Outside) where
  abbrev pub uses_store : Bool
  uses_store = not (str_eq cfg.database_url "")

  -- What the configuration asks for.
  abbrev pub wiring_of : Wiring
  wiring_of = record {
    has_store = uses_store;
    email = init_email cfg out uses_store;
    limiter = if str_eq cfg.rate_limit_backend "redis" then redis_backend else memory_backend;
    has_metrics = cfg.otel_enabled;
  }

  abbrev pub IsFailure : Res (Unit {0}) → Type 0
  IsFailure r = (e : String) × (r ≡ err e)

  -- The server listens once, with what the configuration asks for, and ends as serving ends; or a
  -- step before fails, and it does not listen.
  abbrev pub Starts : Proc (Unit {0}) → Type 0
  Starts m =
      ((listens m.1 ≡ (":" ^^ cfg.port, wiring_of) ∷ []) × (m.0 ≡ ended cfg out out.ending))
      ⊎ ((listens m.1 ≡ []) × IsFailure m.0)

  module _ {A : Type 0} (P : A → Type 0) where
    pub Starts-defer :
        (m : Proc A) (close : A → List Effect) (f : A → Proc (Unit {0}))
        → SetsUp P m
        → ((a : A) → P a → (listens (close a) ≡ []) × Starts (f a))
        → Starts (m >>= λ a. with_defer (close a) (f a))
    Starts-defer (err e, es) close f h rest = inr (h.quiet, (e, refl))
    Starts-defer (ok a, es) close f h rest = elim ((rest a h.result).1) [
      | inl s ↦ inl (around es (f a).1 (close a) h.quiet (rest a h.result).0 ∙ s.0, s.1)
      | inr s ↦ inr (around es (f a).1 (close a) h.quiet (rest a h.result).0 ∙ s.0, s.1)
    ]
