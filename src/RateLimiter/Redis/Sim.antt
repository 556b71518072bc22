-- ===== src/RateLimiter/Redis/Sim.antt =====
-- The relation between the sets of the limiter of api/internal/ratelimiter/redis.go and the log of
-- requests, and that a call keeps it.
use zaas.Prelude.{
  ℕ, ◌+◌, ◌≤◌, ◌≡◌, ◌≢◌, refl, sym, ap, subst, ◌∙◌, String, Bool, true, false, List, [], ◌∷◌, inl,
  inr, arith, str_eq, str_eq_iff, length, keep, All, All-keep, All-append, if◌then◌else◌,
  Bool-cases,
}
use zaas.Prelude.Int.{pos, leb_ℤ, ltb_ℤ}
use zaas.Prelude.Text.{◌^^◌}
use zaas.RateLimiter.Spec.{in_window, Log, ideal, decide_window}
use zaas.RateLimiter.Spec.Windows.{keep-keep_later, append_if, keep-append_if, ideal-log_at}
use zaas.RateLimiter.Redis.{SortedSet, remove_old, live, sliding_window, redis_allow_n}
use zaas.RateLimiter.Redis.Decides.{scores, IsPast}
use zaas.RateLimiter.Redis.Agrees.{after, add_last, run_script, redis_answer, redis_scores}
use zaas.RateLimiter.Redis.Server.{
  Sets, write, Call, call_ms, call_member, call, answer_to, call-answer, call-denied, call-sets,
}
use zaas.RateLimiter.Redis.Kept.{IsKept, All_weaken, live-same, live-All, str_eq-rate}

pub record Sim (clock : ℕ) (log : Log) (sets : Sets) (cs : List Call) : Type 0 where
  pub same :
      (j : String) (later : ℕ)
      → clock ≤ later
      → keep (in_window 60_000 later) (log j)
        ≡ keep (in_window 60_000 later) (scores (sets ("rate:" ^^ j)).members)
  pub kept :
      (j : String)
      → All (IsKept clock (sets ("rate:" ^^ j)).expires_at cs) (sets ("rate:" ^^ j)).members

module _ {clock : ℕ} {log : Log} {sets : Sets} (c : Call) (cs : List Call)
    (sim : Sim clock log sets (c ∷ cs)) (le : clock ≤ call_ms c)
    (started : 60_000 ≤ call_ms c) where
  set : SortedSet
  set = sets ("rate:" ^^ c.key)

  valid-IsPast :
      All
        (IsPast (call_ms c) (call_member c))
        (remove_old (call_ms c) 60_000 (live (call_ms c) set))
  unfolding set
  valid-IsPast = All-keep (IsPast (call_ms c) (call_member c)) _ (live (call_ms c) set) (
      live-All (IsPast (call_ms c) (call_member c)) (call_ms c) set (
        All_weaken (IsKept clock set.expires_at (c ∷ cs)) (IsPast (call_ms c) (call_member c))
          set.members
          (λ m k. record { past = let old = k.past in omega arith; distinct = k.distinct.0 })
          (sim.kept c.key)))

  window-same :
      keep (in_window 60_000 (call_ms c)) (scores (live (call_ms c) set))
      ≡ keep (in_window 60_000 (call_ms c)) (log c.key)
  unfolding set
  window-same =
      live-same clock (call_ms c) (c ∷ cs) set (sim.kept c.key)
      ∙ sym (sim.same c.key (call_ms c) le)

  pub request-answer : (call c sets).0 ≡ answer_to c (ideal 60_000 c.key c.rpm (call_ms c) log).0
  unfolding ideal set
  request-answer = elim (Bool-cases (leb_ℤ c.rpm (pos 0))) [
    | inl e ↦ (call-denied c sets e).0 ∙ rw e refl
    | inr e ↦
        call-answer c sets
        ∙ redis_answer (call_ms c) c.key c.rpm c.now c.hex set e started valid-IsPast
        ∙ rw (e, window-same) refl
  ]

  -- The set after a call of a positive rate.
  set' : SortedSet
  set' =
      (sliding_window (call_ms c) 60_000 c.rpm (call_member c) (call_ms c)
        (sets ("rate:" ^^ c.key))).1

  allowed : Bool
  allowed = ltb_ℤ (pos (length (keep (in_window 60_000 (call_ms c)) (log c.key)))) c.rpm

  set'-scores :
      leb_ℤ c.rpm (pos 0) ≡ false
      → scores set'.members
        ≡ append_if allowed (call_ms c) (keep (in_window 60_000 (call_ms c)) (log c.key))
  unfolding set' set allowed redis_allow_n decide_window
  set'-scores admits =
      let made : (redis_allow_n (run_script (call_ms c)) c.key c.rpm c.now c.hex set).1 ≡ set' =
        rw admits refl in
      ap (λ (x : SortedSet). scores x.members) (sym made)
      ∙ redis_scores (call_ms c) c.key c.rpm c.now c.hex set admits started valid-IsPast
      ∙ rw window-same refl

  set'-same :
      (later : ℕ)
      → leb_ℤ c.rpm (pos 0) ≡ false
      → call_ms c ≤ later
      → keep (in_window 60_000 later) (append_if allowed (call_ms c) (log c.key))
        ≡ keep (in_window 60_000 later) (scores set'.members)
  unfolding allowed
  set'-same later admits h =
      keep-append_if 60_000 allowed (call_ms c) later (log c.key)
        (keep (in_window 60_000 (call_ms c)) (log c.key))
        (sym (keep-keep_later 60_000 (call_ms c) later (log c.key) h))
      ∙ ap (keep (in_window 60_000 later)) (sym (set'-scores admits))

  IsKept-later :
      (expires : ℕ) (ms : List (ℕ × String))
      → All (IsKept clock expires (c ∷ cs)) ms
      → All (IsKept (call_ms c) expires cs) ms
  IsKept-later expires ms h =
      All_weaken (IsKept clock expires (c ∷ cs)) (IsKept (call_ms c) expires cs) ms
        (λ m k.
          let old = k.past in
          record { past = omega arith; lasts = k.lasts; distinct = k.distinct.1 })
        h

  IsKept-after :
      (b : Bool) (expires : ℕ) (ms : List (ℕ × String))
      → All (λ d. call_member c ≢ call_member d) cs
      → All (IsPast (call_ms c) (call_member c)) ms
      → All (IsKept clock expires (c ∷ cs)) ms
      → All
          (IsKept (call_ms c) (if b then call_ms c + 60_000 else expires) cs)
          (after b (call_ms c) (call_member c) ms)
  IsKept-after true expires ms apart past h = rw (add_last (call_ms c) (call_member c) ms past) (
      All-append (IsKept (call_ms c) (call_ms c + 60_000) cs) ms ((call_ms c, call_member c) ∷ [])
        (All_weaken (IsKept clock expires (c ∷ cs)) (IsKept (call_ms c) (call_ms c + 60_000) cs) ms
          (λ m k.
            let old = k.past in
            record { past = omega arith; lasts = omega arith; distinct = k.distinct.1 })
          h)
        (record { past = omega arith; lasts = omega arith; distinct = apart }, tt))
  IsKept-after false expires ms apart past h = IsKept-later expires ms h

  set'-IsKept :
      All (λ d. call_member c ≢ call_member d) cs
      → All (IsKept (call_ms c) set'.expires_at cs) set'.members
  unfolding set' set sliding_window
  set'-IsKept apart = IsKept-after _ set.expires_at _ apart valid-IsPast (
      All-keep (IsKept clock set.expires_at (c ∷ cs)) _ (live (call_ms c) set)
        (live-All (IsKept clock set.expires_at (c ∷ cs)) (call_ms c) set (sim.kept c.key)))

  write-members :
      (j : String)
      → write ("rate:" ^^ c.key) set' sets ("rate:" ^^ j)
        ≡ (if str_eq c.key j then set' else sets ("rate:" ^^ j))
  write-members j = rw (str_eq-rate c.key j) refl

  Sim-denied :
      leb_ℤ c.rpm (pos 0) ≡ true
      → Sim (call_ms c) (ideal 60_000 c.key c.rpm (call_ms c) log).1 (call c sets).1 cs
  Sim-denied e = rw ((call-denied c sets e).1) (record {
    same = λ j later h.
        rw (ideal-log_at 60_000 c.key c.rpm (call_ms c) log j, e) (sim.same j later (omega arith));
    kept = λ j. IsKept-later _ _ (sim.kept j);
  })

  written-same :
      leb_ℤ c.rpm (pos 0) ≡ false
      → (j : String) (later : ℕ) → call_ms c ≤ later
      → keep (in_window 60_000 later) ((ideal 60_000 c.key c.rpm (call_ms c) log).1 j)
        ≡ keep
            (in_window 60_000 later)
            (scores (write ("rate:" ^^ c.key) set' sets ("rate:" ^^ j)).members)
  unfolding allowed
  written-same e j later h =
      rw (ideal-log_at 60_000 c.key c.rpm (call_ms c) log j, write-members j, e)
        (elim (Bool-cases (str_eq c.key j)) [
          | inl k ↦ rw k (rw (← (str_eq_iff c.key j).0 k) (set'-same later e h))
          | inr k ↦ rw k (sim.same j later (omega arith))
        ])

  written-IsKept :
      All (λ d. call_member c ≢ call_member d) cs
      → (j : String)
      → let at_j = write ("rate:" ^^ c.key) set' sets ("rate:" ^^ j) in
        All (IsKept (call_ms c) at_j.expires_at cs) at_j.members
  written-IsKept apart j = rw (write-members j) (elim (Bool-cases (str_eq c.key j)) [
    | inl k ↦ rw k (set'-IsKept apart)
    | inr k ↦ rw k (IsKept-later _ _ (sim.kept j))
  ])

  pub Sim-call :
      All (λ d. call_member c ≢ call_member d) cs
      → Sim (call_ms c) (ideal 60_000 c.key c.rpm (call_ms c) log).1 (call c sets).1 cs
  unfolding set'
  Sim-call apart = elim (Bool-cases (leb_ℤ c.rpm (pos 0))) [
    | inl e ↦ Sim-denied e
    | inr e ↦
        subst (λ sets'. Sim (call_ms c) (ideal 60_000 c.key c.rpm (call_ms c) log).1 sets' cs)
          (sym (call-sets c sets e)) (record { same = written-same e; kept = written-IsKept apart })
  ]
