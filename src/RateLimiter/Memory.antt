-- ===== src/RateLimiter/Memory.antt =====
-- api/internal/ratelimiter/memory.go: the in-process sliding-window limiter.
-- The mutex makes each method one step. `time.Now` is an argument of each method. The goroutine of
-- `cleanupLoop` calls `cleanup` at times that the model leaves open.
pub mod Stamps
pub mod Sim
pub mod Refines
pub mod Limits
mod Tests
use zaas.Prelude.{
  ℕ, ◌+◌, String, Bool, true, false, List, [], ◌∷◌, ◌++◌, Option, none, some, ltb, length, keep,
  if◌then◌else◌,
}
use zaas.Prelude.Int.{ℤ, pos, ◌-ℤ◌, ltb_ℤ, leb_ℤ}
use zaas.Prelude.Dict.{Dict, empty, insert}
use zaas.RateLimiter.{Result, minute}
use zaas.RateLimiter.Spec.{Event, request, sweep}

-- 10 minutes
abbrev pub entry_ttl : ℕ
entry_ttl = 600_000_000_000

abbrev pub window_duration : ℕ
window_duration = minute

pub record WindowEntry : Type 0 where
  pub timestamps : List ℕ
  pub last_seen : ℕ

-- `stopped` says that the channel `stop` is closed.
pub record MemoryRateLimiter : Type 0 where
  pub entries : Dict WindowEntry
  pub rpm : ℤ
  pub stopped : Bool

unfoldable pub new_memory_rate_limiter : ℤ → MemoryRateLimiter
new_memory_rate_limiter rpm = record { entries = empty; rpm = rpm; stopped = false }

-- A new entry's `lastSeen` is Go's zero time, which the caller overwrites at once.
abbrev pub entry_or_new : Option WindowEntry → WindowEntry
entry_or_new none = record { timestamps = []; last_seen = 0 }
entry_or_new (some e) = e

-- `getOrCreate`; the caller writes the entry back, which stands for the write through the pointer.
abbrev pub get_or_create : String → MemoryRateLimiter → WindowEntry
get_or_create key rl = entry_or_new (rl.entries key)

unfoldable pub allow_n : String → ℤ → ℕ → MemoryRateLimiter → Result × MemoryRateLimiter
unfolding ◌-ℤ◌
allow_n key rpm now rl =
    if leb_ℤ rpm (pos 0)
    then (record { allowed = false; remaining = pos 0; reset_at = now + window_duration }, rl)
    else (let e = get_or_create key rl in
        let valid = keep (λ ts. ltb now (ts + window_duration)) e.timestamps in
        let allowed = ltb_ℤ (pos (length valid)) rpm in
        let timestamps = if allowed then valid ++ now ∷ [] else valid in
        let count = if allowed then length valid + 1 else length valid in
        let difference = rpm -ℤ pos count in
        let remaining = if ltb_ℤ difference (pos 0) then pos 0 else difference in
        let reset_at : ℕ = elim timestamps [
          | [] ↦ now + window_duration
          | oldest ∷ _ ↦ oldest + window_duration
        ] in
        (
          record { allowed = allowed; remaining = remaining; reset_at = reset_at },
          record rl {
            entries = insert key (record { timestamps = timestamps; last_seen = now }) rl.entries;
          },
        ))

unfoldable pub allow : String → ℕ → MemoryRateLimiter → Result × MemoryRateLimiter
unfolding allow_n
allow key now rl = allow_n key rl.rpm now rl

-- `e.lastSeen.Before(cutoff)`, with the cutoff `now - entryTTL`
abbrev pub is_idle : ℕ → WindowEntry → Bool
is_idle now e = ltb (e.last_seen + entry_ttl) now

-- The body of the loop over the entries.
abbrev pub keep_entry : ℕ → Option WindowEntry → Option WindowEntry
keep_entry now none = none
keep_entry now (some e) = if is_idle now e then none else some e

unfoldable pub cleanup : ℕ → MemoryRateLimiter → MemoryRateLimiter
cleanup now rl = record rl { entries = λ key. keep_entry now (rl.entries key) }

-- `Close`: `closeOnce` closes the channel the first time only.
unfoldable pub close : MemoryRateLimiter → MemoryRateLimiter
close rl = record rl { stopped = true }

-- One round of `cleanupLoop`'s `select`, on a tick: a stopped loop has returned.
unfoldable pub tick : ℕ → MemoryRateLimiter → MemoryRateLimiter
unfolding cleanup
tick now rl = if rl.stopped then rl else cleanup now rl

-- The answers to a sequence of requests and ticks.
unfoldable pub run_memory : List Event → MemoryRateLimiter → List Result
run_memory [] rl = []
run_memory (request key rpm now ∷ es) rl =
    let (answer, rl') = allow_n key rpm now rl in answer ∷ run_memory es rl'
run_memory (sweep now ∷ es) rl = run_memory es (tick now rl)
