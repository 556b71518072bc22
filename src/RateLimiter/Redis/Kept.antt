-- ===== src/RateLimiter/Redis/Kept.antt =====
-- The members that the script of api/internal/ratelimiter/redis.go keeps in a set, until the key expires.
use text.Mathlib.TextLemmas.{append_cancel_left}
use zaas.Prelude.{
  ℕ, ◌+◌, ◌≤◌, ◌≡◌, ◌≢◌, refl, sym, ap, String, true, List, [], ◌∷◌, inl, inr, arith, str_eq,
  str_eq_iff, keep, All, Bool-cases, leb,
}
use zaas.Prelude.Text.{◌^^◌}
use zaas.RateLimiter.Spec.{in_window}
use zaas.RateLimiter.Redis.{SortedSet, live}
use zaas.RateLimiter.Redis.Decides.{scores}
use zaas.RateLimiter.Redis.Server.{Call, call_member}

-- A member whose score is not ahead of the clock, that leaves the window before the key expires, and
-- that is none of the calls to come.
pub record IsKept (now expires : ℕ) (cs : List Call) (m : ℕ × String) : Type 0 where
  pub past : m.0 ≤ now
  pub lasts : m.0 + 60_000 ≤ expires
  pub distinct : All (λ d. m.1 ≢ call_member d) cs

pub All_weaken :
    {A : Type 0} (P Q : A → Type 0) (xs : List A) → ((x : A) → P x → Q x) → All P xs → All Q xs
All_weaken P Q [] f h = tt
All_weaken P Q (x ∷ xs) f h = (f x h.0, All_weaken P Q xs f h.1)

gone :
    (now expires later : ℕ) (cs : List Call) (ms : List (ℕ × String))
    → All (IsKept now expires cs) ms
    → expires ≤ later
    → keep (in_window 60_000 later) (scores ms) ≡ []
gone now expires later cs [] h k = refl
gone now expires later cs (m ∷ ms) h k =
    ground (arith, h.0.lasts, gone now expires later cs ms h.1 k)

-- A set that has expired has nothing in the window.
pub live-same :
    (now later : ℕ) (cs : List Call) (set : SortedSet)
    → All (IsKept now set.expires_at cs) set.members
    → keep (in_window 60_000 later) (scores (live later set))
      ≡ keep (in_window 60_000 later) (scores set.members)
live-same now later cs set h = elim (Bool-cases (leb set.expires_at later)) [
  | inl e ↦ rw e (sym (gone now set.expires_at later cs set.members h (ground (arith, e))))
  | inr e ↦ rw e refl
]

pub live-All :
    (P : ℕ × String → Type 0) (clock : ℕ) (set : SortedSet)
    → All P set.members
    → All P (live clock set)
live-All P clock set h = elim (Bool-cases (leb set.expires_at clock)) [
  | inl e ↦ rw e tt
  | inr e ↦ rw e h
]

pub str_eq-rate : (k j : String) → str_eq ("rate:" ^^ k) ("rate:" ^^ j) ≡ str_eq k j
str_eq-rate k j = elim (Bool-cases (str_eq k j)) [
  | inl e ↦
      rw e (
        (str_eq_iff ("rate:" ^^ k) ("rate:" ^^ j)).1
          (ap (λ s. "rate:" ^^ s) ((str_eq_iff k j).0 e)))
  | inr e ↦ elim (Bool-cases (str_eq ("rate:" ^^ k) ("rate:" ^^ j))) [
    | inr f ↦ rw (e, f) refl
    | inl f ↦
        let same : k ≡ j =
          append_cancel_left "rate:" k j ((str_eq_iff ("rate:" ^^ k) ("rate:" ^^ j)).0 f) in
        let bad : str_eq k j ≡ true = (str_eq_iff k j).1 same in cc
  ]
]
