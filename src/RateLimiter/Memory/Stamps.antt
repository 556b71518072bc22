-- ===== src/RateLimiter/Memory/Stamps.antt =====
-- The time stamps that `AllowN` of api/internal/ratelimiter/memory.go keeps and leaves.
use zaas.Prelude.{
  ℕ, ◌+◌, ◌≤◌, ◌≡◌, refl, String, Bool, true, false, List, [], ◌∷◌, some, arith, ltb, str_eq,
  length, keep, All, All-append, if◌then◌else◌,
}
use zaas.Prelude.Int.{ℤ, pos, ltb_ℤ, leb_ℤ}
use zaas.RateLimiter.{minute}
use zaas.RateLimiter.Spec.Windows.{append_if}
use zaas.RateLimiter.Spec.{in_window, decide_window, denied}
use zaas.RateLimiter.Memory.{entry_ttl, WindowEntry, MemoryRateLimiter, get_or_create, allow_n}

pub All_weaken : (a b : ℕ) (xs : List ℕ) → a ≤ b → All (λ ts. ts ≤ a) xs → All (λ ts. ts ≤ b) xs
All_weaken a b [] h k = tt
All_weaken a b (x ∷ xs) h k = (omega arith, All_weaken a b xs h k.1)

-- No stamp of an idle entry is in a window from then on.
pub keep_of_idle :
    (last now later : ℕ) (xs : List ℕ)
    → All (λ ts. ts ≤ last) xs
    → ltb (last + entry_ttl) now ≡ true
    → now ≤ later
    → keep (in_window minute later) xs ≡ []
keep_of_idle last now later [] h k le = refl
keep_of_idle last now later (x ∷ xs) h k le =
    ground (arith, keep_of_idle last now later xs h.1 k le)

abbrev pub stamps : String → MemoryRateLimiter → List ℕ
stamps key rl = (get_or_create key rl).timestamps

-- The answer is a function of the stamps in the window.
pub allow_n-answer :
    (key : String) (rpm : ℤ) (now : ℕ) (rl : MemoryRateLimiter)
    → (allow_n key rpm now rl).0 ≡ (
        if leb_ℤ rpm (pos 0)
        then denied minute now
        else (decide_window minute rpm now (keep (in_window minute now) (stamps key rl))).0)
unfolding allow_n decide_window
allow_n-answer key rpm now rl = ground arith

-- A request of a positive rate writes the entry of its key.
abbrev pub entry_after : String → ℤ → ℕ → MemoryRateLimiter → WindowEntry
entry_after key rpm now rl =
    let valid = keep (in_window minute now) (stamps key rl) in
    record { timestamps = append_if (ltb_ℤ (pos (length valid)) rpm) now valid; last_seen = now }

pub allow_n-entries :
    (key : String) (rpm : ℤ) (now : ℕ) (rl : MemoryRateLimiter) (j : String)
    → (allow_n key rpm now rl).1.entries j ≡ (
        if leb_ℤ rpm (pos 0)
        then rl.entries j
        else (if str_eq key j then some (entry_after key rpm now rl) else rl.entries j))
unfolding allow_n
allow_n-entries key rpm now rl j = ground arith

pub append_if-All :
    (allowed : Bool) (now : ℕ) (xs : List ℕ)
    → All (λ ts. ts ≤ now) xs
    → All (λ ts. ts ≤ now) (append_if allowed now xs)
append_if-All true now xs h = All-append (λ ts. ts ≤ now) xs (now ∷ []) h (omega arith)
append_if-All false now xs h = h
