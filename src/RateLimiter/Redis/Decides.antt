-- ===== src/RateLimiter/Redis/Decides.antt =====
-- The Lua script of api/internal/ratelimiter/redis.go against the decision of the ideal limiter.
use zaas.Prelude.{
  ℕ, ◌≤◌, ◌≡◌, ◌≢◌, refl, String, not, List, [], ◌∷◌, ◌++◌, map, arith, str_eq, str_eq_iff, keep,
  All,
}
use zaas.RateLimiter.Spec.{in_window}
use zaas.RateLimiter.Redis.{remove_old, insert_by_score}

abbrev pub scores : List (ℕ × String) → List ℕ
scores = map λ m. m.0

pub scores-remove_old :
    (now window : ℕ) (ms : List (ℕ × String))
    → scores (remove_old now window ms) ≡ keep (in_window window now) (scores ms)
scores-remove_old now window [] = refl
scores-remove_old now window (m ∷ ms) = ground (arith, scores-remove_old now window ms)

-- What a member of the set is at the time of a request: not in the future, and not the new member.
pub record IsPast (now : ℕ) (member : String) (m : ℕ × String) : Type 0 where
  pub past : m.0 ≤ now
  pub distinct : m.1 ≢ member

pub keep_all :
    (now : ℕ) (member : String) (ms : List (ℕ × String))
    → All (IsPast now member) ms
    → keep (λ m. not (str_eq m.1 member)) ms ≡ ms
keep_all now member [] h = refl
keep_all now member (m ∷ ms) h =
    ground (arith, h.0.distinct, str_eq_iff m.1 member, keep_all now member ms h.1)

pub insert_last :
    (now : ℕ) (member : String) (ms : List (ℕ × String))
    → All (IsPast now member) ms
    → insert_by_score now member ms ≡ ms ++ (now, member) ∷ []
unfolding insert_by_score
insert_last now member [] h = refl
insert_last now member (m ∷ ms) h = ground (arith, h.0.past, insert_last now member ms h.1)
