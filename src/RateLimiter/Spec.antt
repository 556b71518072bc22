-- ===== src/RateLimiter/Spec.antt =====
-- What a sliding-window limiter promises: an ideal limiter that forgets nothing. It keeps the time
-- of every request that it ever admitted, and admits one more exactly when fewer than `rpm` of
-- them lie in the window that ends now.
pub mod Bound
pub mod Windows
use zaas.Prelude.{
  ℕ, ◌+◌, ◌≤◌, ◌<◌, String, Bool, false, true, List, [], ◌∷◌, ◌++◌, Option, none, some, ltb, leb,
  ◌&&◌, ◌≡◌, str_eq, length, keep, if◌then◌else◌,
}
use zaas.Prelude.Int.{ℤ, pos, ◌-ℤ◌, ltb_ℤ, leb_ℤ}
use zaas.RateLimiter.{Result, minute}

-- A time stamp lies in the window that ends at `now`: it is after `now - window`.
abbrev pub in_window : ℕ → ℕ → ℕ → Bool
in_window window now ts = ltb now (ts + window)

-- `remaining := rpm - count; if remaining < 0 { remaining = 0 }`
abbrev pub remaining_of : ℤ → ℕ → ℤ
remaining_of rpm count =
    let remaining = rpm -ℤ pos count in if ltb_ℤ remaining (pos 0) then pos 0 else remaining

-- When the oldest stamp leaves the window.
abbrev pub reset_of : ℕ → ℕ → List ℕ → ℕ
reset_of window now [] = now + window
reset_of window now (ts ∷ _) = ts + window

-- The decision on a request, from the stamps of the window: the answer and the stamps after it.
unfoldable pub decide_window : ℕ → ℤ → ℕ → List ℕ → Result × List ℕ
unfolding ◌-ℤ◌
decide_window window rpm now valid =
    let allowed = ltb_ℤ (pos (length valid)) rpm in
    let count = if allowed then length valid + 1 else length valid in
    let stamps = if allowed then valid ++ now ∷ [] else valid in
    (
      record {
        allowed = allowed;
        remaining = remaining_of rpm count;
        reset_at = reset_of window now stamps;
      },
      stamps,
    )

-- What a limiter answers where `rpm` admits nothing.
abbrev pub denied : ℕ → ℕ → Result
denied window now = record { allowed = false; remaining = pos 0; reset_at = now + window }

abbrev pub Log : Type 0
Log = String → List ℕ

-- The log after an answer: an admitted request is written down.
abbrev pub note_if : Bool → String → ℕ → Log → Log
note_if allowed key now log j =
    if str_eq key j then (if allowed then log j ++ now ∷ [] else log j) else log j

unfoldable pub ideal : ℕ → String → ℤ → ℕ → Log → Result × Log
unfolding decide_window
ideal window key rpm now log =
    let valid = keep (in_window window now) (log key) in
    let answer =
      if leb_ℤ rpm (pos 0) then denied window now else (decide_window window rpm now valid).0 in
    (answer, note_if answer.allowed key now log)

-- What happens to a limiter: a request, or a round of the clean-up.
pub data Event : Type 0 where
  request : String → ℤ → ℕ → Event
  sweep : ℕ → Event

abbrev pub time_of : Event → ℕ
time_of (request _ _ now) = now
time_of (sweep now) = now

-- The events come in the order of their times, none before `clock`.
abbrev pub IsOrdered : ℕ → List Event → Type 0
IsOrdered clock [] = Unit
IsOrdered clock (e ∷ es) = (clock ≤ time_of e) × IsOrdered (time_of e) es

-- The answers of the ideal limiter.
unfoldable pub run_ideal : ℕ → List Event → Log → List Result
run_ideal window [] log = []
run_ideal window (request key rpm now ∷ es) log =
    let (answer, log') = ideal window key rpm now log in answer ∷ run_ideal window es log'
run_ideal window (sweep now ∷ es) log = run_ideal window es log

abbrev pub no_log : Log
no_log _ = []

-- The times of the requests of `key` that were allowed.
unfoldable pub admitted : String → List Event → List Result → List ℕ
admitted key [] answers = []
admitted key (sweep _ ∷ es) answers = admitted key es answers
admitted key (request _ _ _ ∷ es) [] = []
admitted key (request k _ now ∷ es) (a ∷ answers) =
    if str_eq k key && a.allowed then now ∷ admitted key es answers else admitted key es answers

-- Every request of `key` comes with the rate `rpm`.
abbrev pub HasRate : String → ℤ → List Event → Type 0
HasRate key rpm [] = Unit
HasRate key rpm (request k r _ ∷ es) = (k ≡ key → r ≡ rpm) × HasRate key rpm es
HasRate key rpm (sweep _ ∷ es) = HasRate key rpm es

-- The time lies in the window of one minute, say, that ends at `t`, which is open below.
abbrev pub within : ℕ → ℕ → ℕ → Bool
within window t ts = leb ts t && in_window window t ts
