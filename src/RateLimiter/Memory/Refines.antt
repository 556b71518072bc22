-- ===== src/RateLimiter/Memory/Refines.antt =====
-- The in-process limiter of api/internal/ratelimiter/memory.go against the ideal one.
use zaas.Prelude.{
  ℕ, ◌≤◌, ◌≡◌, refl, sym, ◌∙◌, ap₂, List, [], ◌∷◌, Option, none, some, inl, inr, arith, keep, All,
  if_intro, Bool-cases,
}
use zaas.Prelude.Int.{ℤ}
use zaas.RateLimiter.{Result, minute}
use zaas.RateLimiter.Spec.{
  in_window, Log, ideal, Event, request, sweep, IsOrdered, run_ideal, no_log,
}
use zaas.RateLimiter.Memory.{
  WindowEntry, MemoryRateLimiter, entry_or_new, allow_n, keep_entry, cleanup, tick, is_idle,
  run_memory, new_memory_rate_limiter,
}
use zaas.RateLimiter.Memory.Stamps.{keep_of_idle}
use zaas.RateLimiter.Memory.Sim.{Sim, Sim-later, request-answer, Sim-request}

cleanup-same :
    (now later : ℕ) (o : Option WindowEntry)
    → ((e : WindowEntry) → o ≡ some e → All (λ ts. ts ≤ e.last_seen) e.timestamps)
    → now ≤ later
    → keep (in_window minute later) (entry_or_new (keep_entry now o)).timestamps
      ≡ keep (in_window minute later) (entry_or_new o).timestamps
cleanup-same now later none seen h = refl
cleanup-same now later (some e) seen h = elim (Bool-cases (is_idle now e)) [
  | inl idle ↦ rw idle (sym (keep_of_idle e.last_seen now later e.timestamps (seen e refl) idle h))
  | inr busy ↦ rw busy refl
]

keep_entry-eq-some :
    (now : ℕ) (o : Option WindowEntry) (e : WindowEntry) → keep_entry now o ≡ some e → o ≡ some e
keep_entry-eq-some now o e h = ground arith

Sim-cleanup :
    {clock : ℕ} {log : Log} {rl : MemoryRateLimiter} (now : ℕ)
    → clock ≤ now
    → Sim clock log rl
    → Sim now log (cleanup now rl)
unfolding cleanup
Sim-cleanup {rl} now h sim = record {
  same = λ key later k.
      sim.same key later (omega arith)
      ∙ sym (cleanup-same now later (rl.entries key) (sim.seen key) k);
  seen = λ key e found. sim.seen key e (keep_entry-eq-some now (rl.entries key) e found);
  recent = λ key e found.
      let old = sim.recent key e (keep_entry-eq-some now (rl.entries key) e found) in omega arith;
}

Sim-tick :
    {clock : ℕ} {log : Log} {rl : MemoryRateLimiter} (now : ℕ)
    → clock ≤ now
    → Sim clock log rl
    → Sim now log (tick now rl)
unfolding tick
Sim-tick {log} {rl} now h sim =
    if_intro (Sim now log) rl.stopped (Sim-later sim now h) (Sim-cleanup now h sim)

Sim-run :
    (clock : ℕ) (events : List Event) (log : Log) (rl : MemoryRateLimiter)
    → IsOrdered clock events
    → Sim clock log rl
    → run_memory events rl ≡ run_ideal minute events log
unfolding run_memory run_ideal
Sim-run clock [] log rl h sim = refl
Sim-run clock (request key rpm now ∷ es) log rl h sim =
    ap₂ (λ (a : Result) (l : List Result). a ∷ l) (request-answer sim key rpm now h.0)
      (Sim-run now es (ideal minute key rpm now log).1 (allow_n key rpm now rl).1 h.1
        (Sim-request sim key rpm now h.0))
Sim-run clock (sweep now ∷ es) log rl h sim =
    Sim-run now es log (tick now rl) h.1 (Sim-tick now h.0 sim)

Sim-new : (rpm : ℤ) → Sim 0 no_log (new_memory_rate_limiter rpm)
unfolding new_memory_rate_limiter
Sim-new rpm = record {
  same = λ key later h. refl;
  seen = λ key e found. cc;
  recent = λ key e found. cc;
}

-- On every sequence of requests and clean-up ticks whose times do not decrease, a new in-process
-- limiter gives the answers of the ideal limiter, one for one: whether the request is allowed, what
-- remains, and when the window resets.
pub memory_refines :
    (rpm : ℤ) (events : List Event)
    → IsOrdered 0 events
    → run_memory events (new_memory_rate_limiter rpm) ≡ run_ideal minute events no_log
memory_refines rpm events h = Sim-run 0 events no_log (new_memory_rate_limiter rpm) h (Sim-new rpm)
