-- ===== src/RateLimiter/Memory/Sim.antt =====
-- The relation between the limiter of api/internal/ratelimiter/memory.go and the log of requests, and
-- that a request keeps it.
use zaas.Prelude.{
  ℕ, ◌≤◌, ◌≡◌, refl, sym, ◌∙◌, String, Option, none, some, inl, inr, arith, str_eq, str_eq_iff,
  length, keep, All, All-keep, Bool-cases,
}
use zaas.Prelude.Int.{ℤ, pos, ltb_ℤ, leb_ℤ}
use zaas.RateLimiter.{minute}
use zaas.RateLimiter.Spec.{in_window, Log, ideal}
use zaas.RateLimiter.Spec.Windows.{keep-keep_later, append_if, keep-append_if, ideal-log_at}
use zaas.RateLimiter.Memory.{WindowEntry, MemoryRateLimiter, entry_or_new, allow_n}
use zaas.RateLimiter.Memory.Stamps.{
  All_weaken, stamps, allow_n-answer, entry_after, allow_n-entries, append_if-All,
}

pub record Sim (clock : ℕ) (log : Log) (rl : MemoryRateLimiter) : Type 0 where
  pub same :
      (key : String) (later : ℕ)
      → clock ≤ later
      → keep (in_window minute later) (log key) ≡ keep (in_window minute later) (stamps key rl)
  pub seen :
      (key : String) (e : WindowEntry)
      → rl.entries key ≡ some e
      → All (λ ts. ts ≤ e.last_seen) e.timestamps
  pub recent : (key : String) (e : WindowEntry) → rl.entries key ≡ some e → e.last_seen ≤ clock

entry_stamps :
    (clock : ℕ) (o : Option WindowEntry)
    → ((e : WindowEntry) → o ≡ some e → All (λ ts. ts ≤ e.last_seen) e.timestamps)
    → ((e : WindowEntry) → o ≡ some e → e.last_seen ≤ clock)
    → All (λ ts. ts ≤ clock) (entry_or_new o).timestamps
entry_stamps clock none seen recent = tt
entry_stamps clock (some e) seen recent =
    All_weaken e.last_seen clock e.timestamps (recent e refl) (seen e refl)

module _ {clock : ℕ} {log : Log} {rl : MemoryRateLimiter} (sim : Sim clock log rl) where
  -- The rest of the time changes nothing.
  pub Sim-later : (now : ℕ) → clock ≤ now → Sim now log rl
  Sim-later now h = record {
    same = λ key later k. sim.same key later (omega arith);
    seen = sim.seen;
    recent = λ key e found. let old = sim.recent key e found in omega arith;
  }

  pub request-answer :
      (key : String) (rpm : ℤ) (now : ℕ)
      → clock ≤ now
      → (allow_n key rpm now rl).0 ≡ (ideal minute key rpm now log).0
  unfolding ideal
  request-answer key rpm now h = rw (allow_n-answer key rpm now rl, sim.same key now h) refl

  entry_after-same :
      (key : String) (rpm : ℤ) (now later : ℕ)
      → clock ≤ now
      → now ≤ later
      → keep (in_window minute later) (
          append_if
            (ltb_ℤ (pos (length (keep (in_window minute now) (log key)))) rpm)
            now
            (log key))
        ≡ keep (in_window minute later) (entry_after key rpm now rl).timestamps
  entry_after-same key rpm now later h k = rw (sim.same key now h) (
      keep-append_if minute (ltb_ℤ (pos (length (keep (in_window minute now) (stamps key rl)))) rpm)
        now later (log key) (keep (in_window minute now) (stamps key rl))
        (sim.same key later (omega arith)
          ∙ sym (keep-keep_later minute now later (stamps key rl) k)))

  entry_after-seen :
      (key : String) (rpm : ℤ) (now : ℕ)
      → clock ≤ now
      → All (λ ts. ts ≤ now) (entry_after key rpm now rl).timestamps
  entry_after-seen key rpm now h =
      append_if-All (ltb_ℤ (pos (length (keep (in_window minute now) (stamps key rl)))) rpm) now
        (keep (in_window minute now) (stamps key rl))
        (All-keep (λ ts. ts ≤ now) (in_window minute now) (stamps key rl)
          (entry_stamps now (rl.entries key) (sim.seen key)
            (λ e found. let old = sim.recent key e found in omega arith)))

  request-same :
      (key : String) (rpm : ℤ) (now : ℕ) (j : String) (later : ℕ)
      → clock ≤ now
      → now ≤ later
      → keep (in_window minute later) ((ideal minute key rpm now log).1 j)
        ≡ keep
            (in_window minute later)
            (entry_or_new ((allow_n key rpm now rl).1.entries j)).timestamps
  request-same key rpm now j later h k =
      rw (ideal-log_at minute key rpm now log j, allow_n-entries key rpm now rl j)
        (elim (Bool-cases (leb_ℤ rpm (pos 0))) [
          | inl none_admitted ↦ rw none_admitted (sim.same j later (omega arith))
          | inr positive ↦ elim (Bool-cases (str_eq key j)) [
            | inl e ↦
                rw (positive, e)
                  (rw (← (str_eq_iff key j).0 e) (entry_after-same key rpm now later h k))
            | inr e ↦ rw (positive, e) (sim.same j later (omega arith))
          ]
        ])

  request-entry :
      (key : String) (rpm : ℤ) (now : ℕ) (j : String) (e : WindowEntry)
      → clock ≤ now
      → (allow_n key rpm now rl).1.entries j ≡ some e
      → All (λ ts. ts ≤ e.last_seen) e.timestamps × (e.last_seen ≤ now)
  request-entry key rpm now j e h found =
      let found' = rw (allow_n-entries key rpm now rl j) at found in
      elim (Bool-cases (leb_ℤ rpm (pos 0))) [
        | inl none_admitted ↦
            let old = rw none_admitted at found' in
            (sim.seen j e old, let r = sim.recent j e old in omega arith)
        | inr positive ↦ elim (Bool-cases (str_eq key j)) [
          | inl same ↦
              let new : entry_after key rpm now rl ≡ e = cc (rw (positive, same) at found') in
              rw (← new) (entry_after-seen key rpm now h, omega arith)
          | inr other ↦
              let old = rw (positive, other) at found' in
              (sim.seen j e old, let r = sim.recent j e old in omega arith)
        ]
      ]

  pub Sim-request :
      (key : String) (rpm : ℤ) (now : ℕ)
      → clock ≤ now
      → Sim now (ideal minute key rpm now log).1 (allow_n key rpm now rl).1
  Sim-request key rpm now h = record {
    same = λ j later k. request-same key rpm now j later h k;
    seen = λ j e found. (request-entry key rpm now j e h found).0;
    recent = λ j e found. (request-entry key rpm now j e h found).1;
  }
