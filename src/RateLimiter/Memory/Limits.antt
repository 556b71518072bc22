-- ===== src/RateLimiter/Memory/Limits.antt =====
-- What a caller of the in-process limiter can rely on: the bound on admissions, the ranges of the
-- answers, the separation of the keys, and that waiting until `ResetAt` is enough.
use zaas.Prelude.{
  ℕ, ◌+◌, ◌≤◌, ◌<◌, ◌≡◌, ◌≢◌, String, true, false, List, [], ◌∷◌, inl, inr, arith, str_eq,
  str_eq_iff, length, length-append, length-keep, keep, All, Bool-cases, if_intro, Option,
}
use zaas.Prelude.Int.{ℤ, pos, pos_part, ◌≤ℤ◌, ltb_ℤ, leb_ℤ}
use zaas.RateLimiter.{Result, minute}
use zaas.RateLimiter.Spec.{Event, IsOrdered, admitted, HasRate, within, in_window, decide_window}
use zaas.RateLimiter.Spec.Bound.{ideal_bound}
use zaas.RateLimiter.Memory.{
  WindowEntry, MemoryRateLimiter, entry_or_new, get_or_create, allow_n, run_memory,
  new_memory_rate_limiter,
}
use zaas.RateLimiter.Memory.Refines.{memory_refines}
use zaas.RateLimiter.Memory.Stamps.{allow_n-answer, allow_n-entries, stamps}
use zaas.RateLimiter.Spec.Windows.{append_if}

-- In every run of a new limiter over events whose times do not decrease, a key whose requests all
-- come with the same rate has at most that many admitted requests in every window of one minute,
-- wherever the window ends.
pub memory_bound :
    (default : ℤ) (key : String) (rpm : ℤ) (events : List Event) (t : ℕ)
    → IsOrdered 0 events
    → HasRate key rpm events
    → length (
        keep
          (within minute t)
          (admitted key events (run_memory events (new_memory_rate_limiter default))))
      ≤ pos_part rpm
memory_bound default key rpm events t h rate =
    rw (memory_refines default events h) (ideal_bound minute key rpm events t h rate)

-- The stamps kept for a key are never more than its rate.
abbrev pub Fits : String → ℤ → MemoryRateLimiter → Type 0
Fits key rpm rl = length (get_or_create key rl).timestamps ≤ pos_part rpm

-- `remaining` is between 0 and the rate, an allowed request leaves less than the rate, a denied one
-- leaves nothing, and the window resets after now, at most one minute later.
pub record IsInRange (rpm : ℤ) (now : ℕ) (answer : Result) : Type 0 where
  pub nonneg : pos 0 ≤ℤ answer.remaining
  pub below : answer.allowed ≡ true → ¬ (rpm ≤ℤ answer.remaining)
  pub nothing : answer.allowed ≡ false → answer.remaining ≡ pos 0
  pub later : now < answer.reset_at
  pub soon : answer.reset_at ≤ now + minute

abbrev IsFresh : ℕ → ℕ → Type 0
IsFresh now ts = (now < ts + minute) × (ts ≤ now)

decide_window-IsInRange :
    (rpm : ℤ) (now : ℕ) (valid : List ℕ)
    → leb_ℤ rpm (pos 0) ≡ false
    → All (IsFresh now) valid
    → IsInRange rpm now (decide_window minute rpm now valid).0
unfolding decide_window
decide_window-IsInRange rpm now [] h fresh = ground arith
decide_window-IsInRange rpm now (x ∷ xs) h fresh = ground arith

keep-IsFresh :
    (now : ℕ) (xs : List ℕ)
    → All (λ ts. ts ≤ now) xs
    → All (IsFresh now) (keep (in_window minute now) xs)
keep-IsFresh now [] h = tt
keep-IsFresh now (x ∷ xs) h = elim (Bool-cases (in_window minute now x)) [
  | inl in_it ↦ rw in_it ((ground arith, h.0), keep-IsFresh now xs h.1)
  | inr out ↦ rw out (keep-IsFresh now xs h.1)
]

-- Every answer is in range, if no kept stamp of the key is in the future: `remaining` is not
-- negative, is below the rate after an allowed request and zero after a denied one, and the window
-- resets after now and within one minute.
pub allow_n-IsInRange :
    (key : String) (rpm : ℤ) (now : ℕ) (rl : MemoryRateLimiter)
    → All (λ ts. ts ≤ now) (get_or_create key rl).timestamps
    → IsInRange rpm now (allow_n key rpm now rl).0
allow_n-IsInRange key rpm now rl h =
    rw (allow_n-answer key rpm now rl) (elim (Bool-cases (leb_ℤ rpm (pos 0))) [
      | inl none_admitted ↦ rw none_admitted (ground arith)
      | inr positive ↦ rw positive (
          decide_window-IsInRange rpm now
            (keep (in_window minute now) (get_or_create key rl).timestamps) positive
            (keep-IsFresh now (get_or_create key rl).timestamps h))
    ])

-- A request of one key leaves the answers to every other key as they were.
allow_n_separate :
    (key j : String) (rpm rpm' : ℤ) (now later : ℕ) (rl : MemoryRateLimiter)
    → key ≢ j
    → (allow_n j rpm' later (allow_n key rpm now rl).1).0 ≡ (allow_n j rpm' later rl).0
unfolding allow_n
allow_n_separate key j rpm rpm' now later rl ne = ground (arith, str_eq_iff key j)

append_if-fits :
    (rpm : ℤ) (now : ℕ) (valid : List ℕ)
    → length valid ≤ pos_part rpm
    → length (append_if (ltb_ℤ (pos (length valid)) rpm) now valid) ≤ pos_part rpm
append_if-fits rpm now valid h = ground (arith, length-append valid (now ∷ []))

allow_n-fits :
    (key k : String) (rpm r : ℤ) (now : ℕ) (rl : MemoryRateLimiter)
    → (k ≡ key → r ≡ rpm)
    → length (entry_or_new (rl.entries key)).timestamps ≤ pos_part rpm
    → length (entry_or_new ((allow_n k r now rl).1.entries key)).timestamps ≤ pos_part rpm
allow_n-fits key k rpm r now rl rate fits = rw (allow_n-entries k r now rl key) (
    if_intro Fit (leb_ℤ r (pos 0)) fits (elim (Bool-cases (str_eq k key)) [
      | inl same ↦
          let e = (str_eq_iff k key).0 same in
          rw (same, rate e, e)
            (append_if-fits rpm now (keep (in_window minute now) (stamps key rl))
              (omega (arith, length-keep (in_window minute now) (stamps key rl))))
      | inr other ↦ rw other fits
    ]))
  where
    Fit : Option WindowEntry → Type 0
    Fit o = length (entry_or_new o).timestamps ≤ pos_part rpm

-- The number of kept stamps never passes the rate, if every request of the key has that rate.
allow_n-Fits :
    (key k : String) (rpm r : ℤ) (now : ℕ) (rl : MemoryRateLimiter)
    → (k ≡ key → r ≡ rpm)
    → Fits key rpm rl
    → Fits key rpm (allow_n k r now rl).1
allow_n-Fits key k rpm r now rl rate fits = allow_n-fits key k rpm r now rl rate fits
