-- ===== src/RateLimiter/Spec/Bound.antt =====
-- The ideal limiter keeps the promise of its name: no window of the given length ever holds more
-- admitted requests of one key than the rate of that key.
use mathlib.Core.List.{append_assoc, append-nil}
use zaas.Prelude.{
  ℕ, ◌≤◌, ◌<◌, ◌≡◌, refl, String, true, List, [], ◌∷◌, ◌++◌, inl, inr, arith, str_eq, str_eq_iff,
  length, length-append, keep, keep-append, length-keep_mono, All, All-append, Bool-cases,
}
use zaas.Prelude.Int.{ℤ, pos_part}
use zaas.RateLimiter.Spec.{
  in_window, Log, note_if, ideal, Event, request, sweep, IsOrdered, run_ideal, admitted, HasRate,
  within, no_log,
}

module _ (window : ℕ) (key : String) (rpm : ℤ) where
  -- The log of the key lies in the past, and fills no window beyond the rate.
  record IsBounded (clock : ℕ) (log : Log) : Type 0 where
    past : All (λ ts. ts ≤ clock) (log key)
    bounded : (t : ℕ) → length (keep (within window t) (log key)) ≤ pos_part rpm

  All_later : (a b : ℕ) (xs : List ℕ) → a ≤ b → All (λ ts. ts ≤ a) xs → All (λ ts. ts ≤ b) xs
  All_later a b [] h k = tt
  All_later a b (x ∷ xs) h k = (omega arith, All_later a b xs h k.1)

  -- One more stamp, admitted because its own window had room.
  bounded_step :
      (now t : ℕ) (xs : List ℕ)
      → length (keep (within window t) xs) ≤ pos_part rpm
      → length (keep (in_window window now) xs) < pos_part rpm
      → length (keep (within window t) (xs ++ now ∷ [])) ≤ pos_part rpm
  bounded_step now t xs old room =
      rw (keep-append (within window t) xs (now ∷ []), length-append)
        (ground (
          arith,
          λ (h : now ≤ t).
              length-keep_mono (within window t) (in_window window now) xs (λ x e. ground arith),
        ))

  allowed_has_room :
      (now : ℕ) (log : Log)
      → (ideal window key rpm now log).0.allowed ≡ true
      → length (keep (in_window window now) (log key)) < pos_part rpm
  unfolding ideal
  allowed_has_room now log h = ground arith

  -- An admitted request of the key keeps the bound, and joins the log.
  IsBounded-admit :
      (clock now : ℕ) (log : Log)
      → clock ≤ now
      → (ideal window key rpm now log).0.allowed ≡ true
      → IsBounded clock log
      → IsBounded now (note_if true key now log)
  IsBounded-admit clock now log h allowed b =
      let here = (str_eq_iff key key).1 refl in
      record {
        past = rw here (
            All-append (λ ts. ts ≤ now) (log key) (now ∷ [])
              (All_later clock now (log key) h b.past) (omega arith));
        bounded = λ t.
            rw here (bounded_step now t (log key) (b.bounded t) (allowed_has_room now log allowed));
      }

  IsBounded-skip :
      (clock now : ℕ) (log log' : Log)
      → clock ≤ now
      → log' key ≡ log key
      → IsBounded clock log
      → IsBounded now log'
  IsBounded-skip clock now log log' h same b = record {
    past = rw same (All_later clock now (log key) h b.past);
    bounded = λ t. rw same (b.bounded t);
  }

  ideal-log :
      (k : String) (r : ℤ) (now : ℕ) (log : Log)
      → (ideal window k r now log).1 ≡ note_if (ideal window k r now log).0.allowed k now log
  unfolding ideal
  ideal-log k r now log = refl

  -- What the log and the later admissions of the key come to.
  abbrev Total : ℕ → List Event → Log → Type 0
  Total t es log =
      length (keep (within window t) (log key ++ admitted key es (run_ideal window es log)))
      ≤ pos_part rpm

  run_ideal-admit :
      (clock now t : ℕ) (es : List Event) (log : Log)
      → clock ≤ now
      → ((log' : Log) → IsBounded now log' → Total t es log')
      → IsBounded clock log
      → Total t (request key rpm now ∷ es) log
  unfolding run_ideal admitted
  run_ideal-admit clock now t es log h ih b =
      let here = (str_eq_iff key key).1 refl in
      elim (Bool-cases (ideal window key rpm now log).0.allowed) [
        | inl a ↦
            let log' : (ideal window key rpm now log).1 ≡ note_if true key now log =
              rw (ideal-log key rpm now log, a) refl in
            let rest =
              rw (here, append_assoc) at
                (ih (note_if true key now log) (IsBounded-admit clock now log h a b)) in
            rw (here, a, log') rest
        | inr d ↦
            let same : (ideal window key rpm now log).1 key ≡ log key =
              rw (ideal-log key rpm now log, d, here) refl in
            rw (here, d)
              (rw same at (
                ih (ideal window key rpm now log).1
                  (IsBounded-skip clock now log (ideal window key rpm now log).1 h same b)))
      ]

  -- With the log so far in front, the admitted times of any later events keep the bound.
  run_ideal-bounded :
      (clock : ℕ) (events : List Event) (log : Log) (t : ℕ)
      → IsOrdered clock events
      → HasRate key rpm events
      → IsBounded clock log
      → length
          (keep (within window t) (log key ++ admitted key events (run_ideal window events log)))
        ≤ pos_part rpm
  unfolding run_ideal admitted
  run_ideal-bounded clock [] log t h rate b = rw append-nil (b.bounded t)
  run_ideal-bounded clock (sweep now ∷ es) log t h rate b =
      run_ideal-bounded now es log t h.1 rate (IsBounded-skip clock now log log h.0 refl b)
  run_ideal-bounded clock (request k r now ∷ es) log t h rate b = elim (Bool-cases (str_eq k key)) [
    | inr other ↦
        let same : (ideal window k r now log).1 key ≡ log key =
          rw (ideal-log k r now log, other) refl in
        rw other (
          rw same at (
            run_ideal-bounded now es (ideal window k r now log).1 t h.1 rate.1
              (IsBounded-skip clock now log (ideal window k r now log).1 h.0 same b)))
    | inl here ↦
        let this_key = (str_eq_iff k key).0 here in
        rw (this_key, rate.0 this_key)
          (run_ideal-admit clock now t es log h.0
            (λ log' b'. run_ideal-bounded now es log' t h.1 rate.1 b') b)
  ]

-- Whatever the events, if their times do not decrease and every request of the key comes with the
-- same rate, no window of the ideal limiter holds more admitted requests of the key than the rate.
pub ideal_bound :
    (window : ℕ) (key : String) (rpm : ℤ) (events : List Event) (t : ℕ)
    → IsOrdered 0 events
    → HasRate key rpm events
    → length (keep (within window t) (admitted key events (run_ideal window events no_log)))
      ≤ pos_part rpm
ideal_bound window key rpm events t h rate =
    run_ideal-bounded window key rpm 0 events no_log t h rate
      (record { past = tt; bounded = λ t'. omega arith })
