-- ===== src/RateLimiter/Redis/Agrees.antt =====
-- AllowN of api/internal/ratelimiter/redis.go, with the script run by the server, against the decision
-- of the ideal limiter.
use zaas.Prelude.{
  subst, ℕ, ◌+◌, ◌*◌, ◌/◌, ◌≤◌, ◌<◌, ◌≡◌, ◌⊎◌, refl, sym, ◌∙◌, String, Bool, true, false, List, [],
  ◌∷◌, ◌++◌, Option, some, inl, inr, arith, length, keep, All, if◌then◌else◌, Bool-cases, ltb,
}
use zaas.Prelude.Int.{ℤ, pos, ltb_ℤ, leb_ℤ}
use zaas.Prelude.Text.{◌^^◌, show}
use zaas.RateLimiter.{Result, answered}
use zaas.RateLimiter.Spec.{in_window, remaining_of, reset_of, decide_window}
use zaas.RateLimiter.Redis.{
  SortedSet, remove_old, add_member, oldest_score, Reply, live, sliding_window, Value,
  parse_script_result, encode_reply, reset_from, result_of, redis_allow_n,
}
use zaas.RateLimiter.Redis.Decides.{scores, scores-remove_old, IsPast, keep_all, insert_last}

-- The server runs the script on the set of the key.
abbrev pub run_script :
    ℕ → String → ℕ → ℕ → ℤ → String → SortedSet → Option (List Value) × SortedSet
run_script clock _ now window limit member set =
    let (reply, set') = sliding_window now window limit member clock set in
    (some (encode_reply reply), set')

-- An answer in milliseconds, with its time in nanoseconds.
abbrev pub in_nanoseconds : Result → Result
in_nanoseconds r = record {
  allowed = r.allowed;
  remaining = r.remaining;
  reset_at = r.reset_at * 1_000_000;
}

reset_from-pos : (now n : ℕ) → 0 < n → reset_from now (pos n) ≡ (n + 60_000) * 1_000_000
reset_from-pos now n h = ground arith

result_of-reply :
    (allowed : Bool) (rpm : ℤ) (count now now_ms : ℕ) (ms : List (ℕ × String))
    → 0 < oldest_score ms
    → result_of rpm now (
        parse_script_result
          (encode_reply record { allowed = allowed; count = count; oldest = oldest_score ms }))
      ≡ answered record {
        allowed = allowed;
        remaining = remaining_of rpm count;
        reset_at = reset_of 60_000 now_ms (scores ms) * 1_000_000;
      }
unfolding parse_script_result
result_of-reply allowed rpm count now now_ms [] h = ground arith
result_of-reply true rpm count now now_ms (m ∷ ms) h = rw (reset_from-pos now m.0 h) refl
result_of-reply false rpm count now now_ms (m ∷ ms) h = rw (reset_from-pos now m.0 h) refl

scores-append :
    (ms : List (ℕ × String)) (m : ℕ × String) → scores (ms ++ m ∷ []) ≡ scores ms ++ m.0 ∷ []
scores-append [] m = refl
scores-append (x ∷ ms) m = rw (scores-append ms m) refl

length-scores : (ms : List (ℕ × String)) → length (scores ms) ≡ length ms
length-scores [] = refl
length-scores (x ∷ ms) = rw (length-scores ms) refl

pub add_last :
    (now : ℕ) (member : String) (ms : List (ℕ × String))
    → All (IsPast now member) ms
    → add_member now member ms ≡ ms ++ (now, member) ∷ []
unfolding add_member
add_last now member ms h = rw (keep_all now member ms h) (insert_last now member ms h)

-- The members that the script leaves.
abbrev pub after : Bool → ℕ → String → List (ℕ × String) → List (ℕ × String)
after allowed now member valid = if allowed then add_member now member valid else valid

scores-after :
    (allowed : Bool) (now : ℕ) (member : String) (valid : List (ℕ × String))
    → All (IsPast now member) valid
    → scores (after allowed now member valid)
      ≡ (if allowed then scores valid ++ now ∷ [] else scores valid)
scores-after true now member valid h =
    rw (add_last now member valid h) (scores-append valid (now, member))
scores-after false now member valid h = refl

-- A member that is left has a score in the window, which starts after 0.
remove_old-positive :
    (now : ℕ) (ms : List (ℕ × String))
    → 60_000 ≤ now
    → (length (remove_old now 60_000 ms) ≡ 0) ⊎ (0 < oldest_score (remove_old now 60_000 ms))
remove_old-positive now [] k = inl refl
remove_old-positive now (m ∷ ms) k = elim (Bool-cases (ltb now (m.0 + 60_000))) [
  | inl e ↦ inr (ground (arith, e))
  | inr e ↦ rw e (remove_old-positive now ms k)
]

first-after :
    (allowed : Bool) (now : ℕ) (member : String) (m : ℕ × String) (valid : List (ℕ × String))
    → All (IsPast now member) (m ∷ valid)
    → oldest_score (after allowed now member (m ∷ valid)) ≡ m.0
first-after true now member m valid past = rw (add_last now member (m ∷ valid) past) refl
first-after false now member m valid past = refl

after-positive :
    (rpm : ℤ) (now : ℕ) (member : String) (valid : List (ℕ × String))
    → leb_ℤ rpm (pos 0) ≡ false
    → 60_000 ≤ now
    → All (IsPast now member) valid
    → (length valid ≡ 0) ⊎ (0 < oldest_score valid)
    → 0 < oldest_score (after (ltb_ℤ (pos (length valid)) rpm) now member valid)
unfolding add_member
after-positive rpm now member [] h k past positive = ground (arith, h, k)
after-positive rpm now member (m ∷ valid) h k past (inl e) = ground (arith, e)
after-positive rpm now member (m ∷ valid) h k past (inr p) =
    rw (first-after (ltb_ℤ (pos (length (m ∷ valid))) rpm) now member m valid past) p

-- What the script replies where `valid` are the members that are left.
abbrev reply_from : ℤ → ℕ → String → List (ℕ × String) → Reply
reply_from rpm now member valid =
    let allowed = ltb_ℤ (pos (length valid)) rpm in
    record {
      allowed = allowed;
      count = if allowed then length valid + 1 else length valid;
      oldest = oldest_score (after allowed now member valid);
    }

reply_from-decides :
    (rpm : ℤ) (now now_ms : ℕ) (member : String) (valid : List (ℕ × String))
    → All (IsPast now_ms member) valid
    → 0 < (reply_from rpm now_ms member valid).oldest
    → result_of rpm now (parse_script_result (encode_reply (reply_from rpm now_ms member valid)))
      ≡ answered (in_nanoseconds (decide_window 60_000 rpm now_ms (scores valid)).0)
unfolding decide_window
reply_from-decides rpm now now_ms member valid past positive =
    let allowed = ltb_ℤ (pos (length valid)) rpm in
    result_of-reply allowed rpm (if allowed then length valid + 1 else length valid) now now_ms
      (after allowed now_ms member valid) positive
    ∙ rw (scores-after allowed now_ms member valid past, length-scores valid) refl

abbrev pub ms_of : ℕ → ℕ
ms_of now = now / 1_000_000

abbrev pub member_of : ℕ → String → String
member_of now hex = show (pos (ms_of now)) ^^ ":" ^^ hex

module _ (clock : ℕ) (key : String) (rpm : ℤ) (now : ℕ) (hex : String) (set : SortedSet)
    (admits : leb_ℤ rpm (pos 0) ≡ false) (started : 60_000 ≤ ms_of now)
    (past : All
      (IsPast (ms_of now) (member_of now hex))
      (remove_old (ms_of now) 60_000 (live clock set))) where
  valid : List (ℕ × String)
  valid = remove_old (ms_of now) 60_000 (live clock set)

  pub redis_answer :
      (redis_allow_n (run_script clock) key rpm now hex set).0
      ≡ answered (
          in_nanoseconds
            (decide_window 60_000 rpm
              (ms_of now)
              (keep (in_window 60_000 (ms_of now)) (scores (live clock set)))).0)
  unfolding redis_allow_n sliding_window valid
  redis_answer =
      rw (admits, sym (scores-remove_old (ms_of now) 60_000 (live clock set)))
        (reply_from-decides rpm now (ms_of now) (member_of now hex) valid past (
          after-positive rpm (ms_of now) (member_of now hex) valid admits started past
            (remove_old-positive (ms_of now) (live clock set) started)))

  pub redis_scores :
      scores (redis_allow_n (run_script clock) key rpm now hex set).1.members
      ≡ (decide_window 60_000 rpm
          (ms_of now)
          (keep (in_window 60_000 (ms_of now)) (scores (live clock set)))).1
  unfolding redis_allow_n sliding_window decide_window valid
  redis_scores =
      rw (admits, sym (scores-remove_old (ms_of now) 60_000 (live clock set)), length-scores valid)
        (scores-after (ltb_ℤ (pos (length valid)) rpm) (ms_of now) (member_of now hex) valid past)

-- For a positive rate, where the key has not expired, the members of the last minute are not ahead
-- of the clock and none of them is the new member, and at least a minute has passed since the
-- epoch: AllowN answers with the ideal limiter's decision on the scores of the set, in whole
-- milliseconds, and leaves the scores that this decision leaves.
pub redis_decides :
    (clock : ℕ) (key : String) (rpm : ℤ) (now : ℕ) (hex : String) (set : SortedSet)
    → clock < set.expires_at
    → leb_ℤ rpm (pos 0) ≡ false
    → 60_000 ≤ ms_of now
    → All (IsPast (ms_of now) (member_of now hex)) (remove_old (ms_of now) 60_000 set.members)
    → let decision =
        decide_window 60_000 rpm
          (ms_of now)
          (keep (in_window 60_000 (ms_of now)) (scores set.members)) in
      let call = redis_allow_n (run_script clock) key rpm now hex set in
      (call.0 ≡ answered (in_nanoseconds decision.0)) × (scores call.1.members ≡ decision.1)
redis_decides clock key rpm now hex set unexpired admits started past =
    let same : live clock set ≡ set.members = ground (arith, unexpired) in
    let past' : All (IsPast (ms_of now) (member_of now hex))
        (remove_old (ms_of now) 60_000 (live clock set)) =
      rw same past in
    subst
      (λ ms.
        let decision =
          decide_window 60_000 rpm (ms_of now) (keep (in_window 60_000 (ms_of now)) (scores ms)) in
        let call = redis_allow_n (run_script clock) key rpm now hex set in
        (call.0 ≡ answered (in_nanoseconds decision.0)) × (scores call.1.members ≡ decision.1))
      same
      (
        redis_answer clock key rpm now hex set admits started past',
        redis_scores clock key rpm now hex set admits started past',
      )
