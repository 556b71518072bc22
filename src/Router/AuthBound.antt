-- ===== src/Router/AuthBound.antt =====
-- The auth endpoints of api/internal/handler/router.go under their own limiter, over whole sequences
-- of what happens to the server.
use zaas.Prelude.{
  ℕ, ◌≡◌, ◌≤◌, refl, sym, subst, ap, ◌∙◌, String, Bool, true, false, ◌&&◌, List, [], ◌∷◌, some,
  none, length, keep, All, str_eq, arith, ◌==◌, if◌then◌else◌, not,
}
use zaas.Prelude.Int.{ℤ, pos}
use zaas.Http.{Request, Response, blank}
use zaas.RateLimiter.{Result, minute}
use zaas.RateLimiter.Spec.{Event, request, sweep, IsOrdered, HasRate, admitted, within}
use zaas.RateLimiter.Memory.{MemoryRateLimiter, new_memory_rate_limiter, allow_n, tick, run_memory}
use zaas.RateLimiter.Memory.Limits.{memory_bound}
use zaas.Middleware.ClientIp.{extract_ip}
use zaas.Router.{Chi, Deps, new_router}
use zaas.Router.Dispatch.{ChiLaws}
use zaas.Router.AuthSteps.{IsAuthRequest, Leaves, router-Steps}

-- What happens to the server: a request to an auth endpoint, a round of the clean-up of their
-- limiter, or anything else, as its effect on the world.
pub data Visit (S : Type 0) : Type 0 where
  visit : Request → Visit S
  clean : ℕ → Visit S
  elsewhere : (S → S) → Visit S

-- The response is not the refusal of the limiter.
abbrev pub is_let_through : Response → Bool
is_let_through w = elim w.status [ none ↦ true | some code ↦ not (code == 429) ]

module _ {S : Type 0} (chi : Chi S) (deps : Deps S) where
  -- The answers to the visits.
  unfoldable pub run_router : List (Visit S) → S → List Response
  run_router [] s = []
  run_router (visit r ∷ vs) s =
      let out = new_router chi deps r blank s in out.0 ∷ run_router vs out.1
  run_router (clean now ∷ vs) s = run_router vs (deps.auth_rl.put (tick now (deps.auth_rl.get s)) s)
  run_router (elsewhere f ∷ vs) s = run_router vs (f s)

  abbrev pub IsAdmissible : Visit S → Type 0
  IsAdmissible (visit r) = IsAuthRequest r
  IsAdmissible (clean now) = Unit
  IsAdmissible (elsewhere f) = (s : S) → deps.auth_rl.get (f s) ≡ deps.auth_rl.get s

-- The limiter's view of the visits.
abbrev pub events : {S : Type 0} → List (Visit S) → List Event
events [] = []
events (visit r ∷ vs) = request (extract_ip r) (pos 5) r.clock ∷ events vs
events (clean now ∷ vs) = sweep now ∷ events vs
events (elsewhere f ∷ vs) = events vs

-- The times of the requests from an address that got past the limiter.
unfoldable pub let_through : {S : Type 0} → String → List (Visit S) → List Response → List ℕ
let_through ip [] out = []
let_through ip (clean _ ∷ vs) out = let_through ip vs out
let_through ip (elsewhere _ ∷ vs) out = let_through ip vs out
let_through ip (visit r ∷ vs) [] = []
let_through ip (visit r ∷ vs) (w ∷ out) =
    if str_eq (extract_ip r) ip && is_let_through w
    then r.clock ∷ let_through ip vs out
    else let_through ip vs out

allow_n-rpm :
    (key : String) (rpm : ℤ) (now : ℕ) (rl : MemoryRateLimiter)
    → (allow_n key rpm now rl).1.rpm ≡ rl.rpm
unfolding allow_n
allow_n-rpm key rpm now rl = ground arith

tick-rpm : (now : ℕ) (rl : MemoryRateLimiter) → (tick now rl).rpm ≡ rl.rpm
unfolding tick
tick-rpm now rl = ground arith

new-rpm : (new_memory_rate_limiter (pos 5)).rpm ≡ pos 5
unfolding new_memory_rate_limiter
new-rpm = refl

-- One more answer.
one_more :
    (p : ℕ → Bool) (mine : Bool) (w : Response) (result : Result) (now : ℕ) (xs ys : List ℕ)
    → (result.allowed ≡ false → w.status ≡ some 429)
    → length (keep p xs) ≤ length (keep p ys)
    → length (keep p (if mine && is_let_through w then now ∷ xs else xs))
      ≤ length (keep p (if mine && result.allowed then now ∷ ys else ys))
one_more p mine w result now xs ys denied le = ground arith

le_trans : {a b c : ℕ} → a ≤ b → b ≤ c → a ≤ c
le_trans h k = omega arith

events-HasRate : {S : Type 0} (ip : String) (vs : List (Visit S)) → HasRate ip (pos 5) (events vs)
events-HasRate ip [] = tt
events-HasRate ip (visit r ∷ vs) = ((λ _. refl), events-HasRate ip vs)
events-HasRate ip (clean now ∷ vs) = events-HasRate ip vs
events-HasRate ip (elsewhere f ∷ vs) = events-HasRate ip vs

module _ {S : Type 0} (chi : Chi S) (deps : Deps S) (laws : ChiLaws chi)
    (leaves : Leaves chi deps) where
  -- Whoever is let through was admitted by the limiter.
  let_through-le :
      (ip : String) (p : ℕ → Bool) (vs : List (Visit S)) (s : S)
      → All (IsAdmissible chi deps) vs
      → (deps.auth_rl.get s).rpm ≡ pos 5
      → length (keep p (let_through ip vs (run_router chi deps vs s)))
        ≤ length (keep p (admitted ip (events vs) (run_memory (events vs) (deps.auth_rl.get s))))
  unfolding let_through run_router admitted run_memory
  let_through-le ip p [] s h five = omega arith
  let_through-le ip p (clean now ∷ vs) s h five =
      let same = deps.auth_rl.get-put (tick now (deps.auth_rl.get s)) s in
      subst
        (λ rl.
          length (
            keep p (
              let_through ip vs
                (run_router chi deps vs (deps.auth_rl.put (tick now (deps.auth_rl.get s)) s))))
          ≤ length (keep p (admitted ip (events vs) (run_memory (events vs) rl))))
        same
        (let_through-le ip p vs _ h.1
          (ap (λ rl. rl.rpm) same ∙ tick-rpm now (deps.auth_rl.get s) ∙ five))
  let_through-le ip p (elsewhere f ∷ vs) s h five =
      subst
        (λ rl.
          length (keep p (let_through ip vs (run_router chi deps vs (f s))))
          ≤ length (keep p (admitted ip (events vs) (run_memory (events vs) rl))))
        (h.0 s) (let_through-le ip p vs (f s) h.1 (ap (λ rl. rl.rpm) (h.0 s) ∙ five))
  let_through-le ip p (visit r ∷ vs) s h five =
      let out = new_router chi deps r blank s in
      let steps = router-Steps chi deps laws leaves r s h.0 five in
      let step = allow_n (extract_ip r) (pos 5) r.clock (deps.auth_rl.get s) in
      one_more p (str_eq (extract_ip r) ip) out.0 step.0 r.clock
        (let_through ip vs (run_router chi deps vs out.1))
        (admitted ip (events vs) (run_memory (events vs) step.1)) steps.denied
        (subst
          (λ rl.
            length (keep p (let_through ip vs (run_router chi deps vs out.1)))
            ≤ length (keep p (admitted ip (events vs) (run_memory (events vs) rl))))
          steps.kept
          (let_through-le ip p vs out.1 h.1 (
            ap (λ rl. rl.rpm) steps.kept
            ∙ allow_n-rpm (extract_ip r) (pos 5) r.clock (deps.auth_rl.get s)
            ∙ five)))

  -- From a limiter as `NewRouter` makes it, whatever else happens to the server in between and
  -- whenever the clean-up runs: of the requests to the auth endpoints from one address, in the order
  -- of time, at most five in any window of one minute get an answer other than 429.
  pub auth_bound :
      (ip : String) (t : ℕ) (vs : List (Visit S)) (s : S)
      → All (IsAdmissible chi deps) vs
      → IsOrdered 0 (events vs)
      → deps.auth_rl.get s ≡ new_memory_rate_limiter (pos 5)
      → length (keep (within minute t) (let_through ip vs (run_router chi deps vs s))) ≤ 5
  auth_bound ip t vs s h ordered made =
      let counted = let_through-le ip (within minute t) vs s h (ap (λ rl. rl.rpm) made ∙ new-rpm) in
      let bounded = memory_bound (pos 5) ip (pos 5) (events vs) t ordered (events-HasRate ip vs) in
      le_trans counted (
        subst
          (λ rl.
            length (keep (within minute t) (admitted ip (events vs) (run_memory (events vs) rl)))
            ≤ 5)
          (sym made) bounded)
