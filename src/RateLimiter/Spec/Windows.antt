-- ===== src/RateLimiter/Spec/Windows.antt =====
-- The stamps in the windows of the ideal limiter, before and after a request.
use zaas.Prelude.{
  ℕ, ◌≤◌, ◌≡◌, refl, ap, String, Bool, true, false, List, [], ◌∷◌, ◌++◌, arith, str_eq, length,
  keep, keep-append, if◌then◌else◌,
}
use zaas.Prelude.Int.{ℤ, pos, ltb_ℤ, leb_ℤ}
use zaas.RateLimiter.Spec.{in_window, Log, ideal}

pub keep-keep_later :
    (w now later : ℕ) (xs : List ℕ)
    → now ≤ later
    → keep (in_window w later) (keep (in_window w now) xs) ≡ keep (in_window w later) xs
keep-keep_later w now later [] h = refl
keep-keep_later w now later (x ∷ xs) h = ground (arith, keep-keep_later w now later xs h)

-- The stamps after a decision.
abbrev pub append_if : Bool → ℕ → List ℕ → List ℕ
append_if allowed now xs = if allowed then xs ++ now ∷ [] else xs

pub keep-append_if :
    (w : ℕ) (allowed : Bool) (now later : ℕ) (xs ys : List ℕ)
    → keep (in_window w later) xs ≡ keep (in_window w later) ys
    → keep (in_window w later) (append_if allowed now xs)
      ≡ keep (in_window w later) (append_if allowed now ys)
keep-append_if w true now later xs ys h =
    rw
      (keep-append (in_window w later) xs (now ∷ []), keep-append (in_window w later) ys (now ∷ []))
      (ap (λ l. l ++ keep (in_window w later) (now ∷ [])) h)
keep-append_if w false now later xs ys h = h

pub ideal-log_at :
    (w : ℕ) (key : String) (rpm : ℤ) (now : ℕ) (log : Log) (j : String)
    → (ideal w key rpm now log).1 j ≡ (
        if leb_ℤ rpm (pos 0)
        then log j
        else (if str_eq key j
            then append_if (ltb_ℤ (pos (length (keep (in_window w now) (log key)))) rpm) now (log j)
            else log j))
unfolding ideal
ideal-log_at w key rpm now log j = ground arith
