-- ===== src/Start/Leaks.antt =====
-- Which resources are open after the effects of the procedures of api/cmd/server/main.go.
pub mod Parts
pub mod Run
use zaas.Prelude.{
  ℕ, ◌≡◌, ◌≢◌, refl, sym, ap, ◌∙◌, String, Bool, true, false, List, [], ◌∷◌, ◌++◌, Option, none,
  some, ◌==◌, str_eq, subst, if◌then◌else◌,
}
use zaas.Config.{Config}
use zaas.Start.{
  Resource, trace_exporter, metric_exporter, log_exporter, pool, sql_db, redis_client,
  memory_limiter, Backend, redis_backend, memory_backend, Effect, opened, closed, listening, Wiring,
  Outside, Res, ok, err, Proc, ◌>>=◌, ◌>>◌, with_defer, wrap, return, tell,
}
use zaas.Start.Telemetry.{Params, init}
use zaas.Start.Telemetry
use zaas.Start.Connect.{connect_and_migrate, new_redis_rate_limiter}
use zaas.Start.Main.{init_store, close_db, init_rate_limiter, close_rl, serve, run_with, run}

abbrev number : Resource → ℕ
number trace_exporter = 0
number metric_exporter = 1
number log_exporter = 2
number pool = 3
number sql_db = 4
number redis_client = 5
number memory_limiter = 6

abbrev pub without : Resource → List Resource → List Resource
without r [] = []
without r (h ∷ hs) = if number h == number r then hs else h ∷ without r hs

-- What is open after the effects, of what was open before and what they open.
abbrev pub leaked : List Resource → List Effect → List Resource
leaked held [] = held
leaked held (opened r ∷ es) = leaked (r ∷ held) es
leaked held (closed r ∷ es) = leaked (without r held) es
leaked held (listening port wiring ∷ es) = leaked held es

pub leaked-append :
    (held : List Resource) (es fs : List Effect)
    → leaked held (es ++ fs) ≡ leaked (leaked held es) fs
leaked-append held [] fs = refl
leaked-append held (opened r ∷ es) fs = leaked-append (r ∷ held) es fs
leaked-append held (closed r ∷ es) fs = leaked-append (without r held) es fs
leaked-append held (listening port wiring ∷ es) fs = leaked-append held es fs

-- A procedure that ends well holds `own` of its result, and one that fails holds nothing.
abbrev pub held_after : {A : Type 0} → (A → List Resource) → List Resource → Res A → List Resource
held_after own held (ok a) = own a ++ held
held_after own held (err e) = held

pub record Holds {A : Type 0} (own : A → List Resource) (m : Proc A) : Type 0 where
  pub at : (held : List Resource) → leaked held m.1 ≡ held_after own held m.0

-- A procedure that leaves open what was open.
pub record Closes {A : Type 0} (m : Proc A) : Type 0 where
  pub at : (held : List Resource) → leaked held m.1 ≡ held

-- What is deferred after a step closes what the step holds.
module _ {A B : Type 0} (own : A → List Resource) where
  pub Closes-defer :
      (m : Proc A) (close : A → List Effect) (f : A → Proc B)
      → Holds own m
      → ((a : A) (held : List Resource) → m.0 ≡ ok a → leaked (own a ++ held) (close a) ≡ held)
      → ((a : A) → Closes (f a))
      → Closes (m >>= λ a. with_defer (close a) (f a))
  Closes-defer (err e, es) close f h closes rest = record { at = h.at }
  Closes-defer (ok a, es) close f h closes rest = record {
    at = λ held.
        leaked-append held es ((f a).1 ++ close a)
        ∙ ap (λ hs. leaked hs ((f a).1 ++ close a)) (h.at held)
        ∙ leaked-append (own a ++ held) (f a).1 (close a)
        ∙ ap (λ hs. leaked hs (close a)) ((rest a).at (own a ++ held))
        ∙ closes a held refl;
  }

module _ {A : Type 0} (own : A → List Resource) where
  pub Holds-wrap : (what : String) (m : Proc A) → Holds own m → Holds own (wrap what m)
  Holds-wrap what (ok a, es) h = h
  Holds-wrap what (err e, es) h = record { at = h.at }

module _ {A : Type 0} where
  pub wrap-ok : (what : String) (m : Proc A) (a : A) → (wrap what m).0 ≡ ok a → m.0 ≡ ok a
  wrap-ok what (ok b, es) a h = h
  wrap-ok what (err e, es) a h = cc

abbrev pub one : Resource → Unit {0} → List Resource
one r _ = r ∷ []
