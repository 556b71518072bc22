-- ===== src/RateLimiter/Redis/Server.antt =====
-- The sets of a Redis server under their keys, and sequences of calls of `AllowN` of
-- api/internal/ratelimiter/redis.go on it. The server's clock, by which keys expire, is the caller's.
use zaas.Prelude.{
  ℕ, ◌≤◌, ◌≡◌, ◌≢◌, refl, String, true, false, List, [], ◌∷◌, Option, inl, inr, str_eq, All,
  if◌then◌else◌, Bool-cases,
}
use zaas.Prelude.Int.{ℤ, pos, leb_ℤ}
use zaas.Prelude.Text.{◌^^◌}
use zaas.RateLimiter.{Result, minute, Answer, answered}
use zaas.RateLimiter.Spec.{Event, request, denied}
use zaas.RateLimiter.Redis.{SortedSet, sliding_window, Value, redis_allow_n}
use zaas.RateLimiter.Redis.Agrees.{run_script, in_nanoseconds, ms_of, member_of}

-- A key that is missing has the empty set.
abbrev pub Sets : Type 0
Sets = String → SortedSet

abbrev pub no_sets : Sets
no_sets _ = record { members = []; expires_at = 0 }

abbrev pub write : String → SortedSet → Sets → Sets
write key set sets j = if str_eq key j then set else sets j

abbrev pub run_on : ℕ → String → ℕ → ℕ → ℤ → String → Sets → Option (List Value) × Sets
run_on clock key now window limit member sets =
    let (values, set) = run_script clock key now window limit member (sets key) in
    (values, write key set sets)

-- A call of `AllowN`, with its time and the digits that it draws.
pub record Call : Type 0 where
  pub key : String
  pub rpm : ℤ
  pub now : ℕ
  pub hex : String

abbrev pub call_ms : Call → ℕ
call_ms c = ms_of c.now

abbrev pub call_member : Call → String
call_member c = member_of c.now c.hex

abbrev pub call : Call → Sets → Answer × Sets
call c sets = redis_allow_n (run_on (call_ms c)) c.key c.rpm c.now c.hex sets

unfoldable pub run_redis : List Call → Sets → List Answer
run_redis [] sets = []
run_redis (c ∷ cs) sets = let (a, sets') = call c sets in a ∷ run_redis cs sets'

-- The calls in whole milliseconds.
abbrev pub events : List Call → List Event
events [] = []
events (c ∷ cs) = request c.key c.rpm (call_ms c) ∷ events cs

-- What a call answers where the ideal limiter, in milliseconds, answers `r`.
abbrev pub answer_to : Call → Result → Answer
answer_to c r = answered (if leb_ℤ c.rpm (pos 0) then denied minute c.now else in_nanoseconds r)

unfoldable pub answers_to : List Call → List Result → List Answer
answers_to [] rs = []
answers_to (c ∷ cs) [] = []
answers_to (c ∷ cs) (r ∷ rs) = answer_to c r ∷ answers_to cs rs

-- No two calls have the same member, and all come at least a minute after the epoch.
abbrev pub AreDistinct : List Call → Type 0
AreDistinct [] = Unit
AreDistinct (c ∷ cs) =
    (60_000 ≤ call_ms c) × All (λ d. call_member c ≢ call_member d) cs × AreDistinct cs

-- A call is a call on the set of its key.
module _ (c : Call) (sets : Sets) where
  set : SortedSet
  set = sets ("rate:" ^^ c.key)

  pub call-answer :
      (call c sets).0
      ≡ (redis_allow_n (run_script (call_ms c)) c.key c.rpm c.now c.hex (sets ("rate:" ^^ c.key))).0
  unfolding redis_allow_n
  call-answer = elim (Bool-cases (leb_ℤ c.rpm (pos 0))) [ inl e ↦ rw e refl | inr e ↦ rw e refl ]

  pub call-denied :
      leb_ℤ c.rpm (pos 0) ≡ true
      → ((call c sets).0 ≡ answered (denied minute c.now)) × ((call c sets).1 ≡ sets)
  unfolding redis_allow_n
  call-denied e = rw e (refl, refl)

  pub call-sets :
      leb_ℤ c.rpm (pos 0) ≡ false
      → (call c sets).1
        ≡ write
            ("rate:" ^^ c.key)
            (sliding_window
              (call_ms c)
              60_000
              c.rpm
              (call_member c)
              (call_ms c)
              (sets ("rate:" ^^ c.key))).1
            sets
  unfolding redis_allow_n
  call-sets e = rw e refl
