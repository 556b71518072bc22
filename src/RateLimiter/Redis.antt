-- ===== src/RateLimiter/Redis.antt =====
-- api/internal/ratelimiter/redis.go: the limiter that keeps its stamps in a sorted set of Redis. The
-- Lua script is a function on the set under its key; `clock` is the time of the server in
-- milliseconds, by which keys expire.
pub mod Decides
pub mod Agrees
pub mod Server
pub mod Kept
pub mod Sim
pub mod Refines
pub mod Limits
mod Tests
use zaas.Prelude.{
  ℕ, ◌+◌, ◌*◌, ◌/◌, String, Bool, true, false, not, List, [], ◌∷◌, Option, none, some, ltb, leb,
  str_eq, length, keep, if◌then◌else◌,
}
use zaas.Prelude.Int.{ℤ, pos, ◌-ℤ◌, ltb_ℤ, leb_ℤ, eq_ℤ}
use zaas.Prelude.Text.{◌^^◌, show}
use zaas.RateLimiter.{Result, minute, Answer, answered, failed}

-- The members with their scores, by increasing score, and when the key expires.
pub record SortedSet : Type 0 where
  pub members : List (ℕ × String)
  pub expires_at : ℕ

-- `ZREMRANGEBYSCORE key -inf now-window`
abbrev pub remove_old : ℕ → ℕ → List (ℕ × String) → List (ℕ × String)
remove_old now window ms = keep (λ m. ltb now (m.0 + window)) ms

-- `ZADD key score member`: a member stands in the set once. Members of one score keep the order in
-- which they came; the script reads scores only.
unfoldable pub insert_by_score : ℕ → String → List (ℕ × String) → List (ℕ × String)
insert_by_score score member [] = (score, member) ∷ []
insert_by_score score member (m ∷ ms) =
    let later = insert_by_score score member ms in
    if leb m.0 score then m ∷ later else (score, member) ∷ m ∷ ms

unfoldable pub add_member : ℕ → String → List (ℕ × String) → List (ℕ × String)
unfolding insert_by_score
add_member score member ms = insert_by_score score member (keep (λ m. not (str_eq m.1 member)) ms)

-- `ZRANGE key 0 0 WITHSCORES`, and 0 where the set is empty
abbrev pub oldest_score : List (ℕ × String) → ℕ
oldest_score [] = 0
oldest_score (m ∷ _) = m.0

-- `{allowed, count, oldest_ts}`
pub record Reply : Type 0 where
  pub allowed : Bool
  pub count : ℕ
  pub oldest : ℕ

abbrev pub live : ℕ → SortedSet → List (ℕ × String)
live clock set = if leb set.expires_at clock then [] else set.members

-- `slidingWindowLua`
unfoldable pub sliding_window : ℕ → ℕ → ℤ → String → ℕ → SortedSet → Reply × SortedSet
unfolding add_member
sliding_window now window limit member clock set =
    let valid = remove_old now window (live clock set) in
    let allowed = ltb_ℤ (pos (length valid)) limit in
    let members = if allowed then add_member now member valid else valid in
    (
      record {
        allowed = allowed;
        count = if allowed then length valid + 1 else length valid;
        oldest = oldest_score members;
      },
      record { members = members; expires_at = if allowed then clock + window else set.expires_at },
    )

-- An element of the script's result, as the client library decodes it.
pub data Value : Type 0 where
  int64 : ℤ → Value
  other : Value

pub data Parsed : Type 0 where
  parsed : Bool → ℤ → ℤ → Parsed
  err_unexpected_result err_invalid_result_type : Parsed

unfoldable pub parse_script_result : List Value → Parsed
parse_script_result (int64 allowed ∷ int64 count ∷ int64 oldest ∷ []) =
    parsed (eq_ℤ allowed (pos 1)) count oldest
parse_script_result (_ ∷ _ ∷ _ ∷ []) = err_invalid_result_type
parse_script_result _ = err_unexpected_result

-- How the server answers with a reply.
abbrev pub encode_reply : Reply → List Value
encode_reply reply =
    int64 (if reply.allowed then pos 1 else pos 0)
    ∷ int64 (pos reply.count)
    ∷ int64 (pos reply.oldest)
    ∷ []

-- `time.UnixMilli(oldestMs).Add(time.Minute)`, in nanoseconds
abbrev pub reset_from : ℕ → ℤ → ℕ
reset_from now (pos n) = if ltb 0 n then n * 1_000_000 + minute else now + minute
reset_from now _ = now + minute

abbrev pub result_of : ℤ → ℕ → Parsed → Answer
result_of rpm now err_unexpected_result = failed
result_of rpm now err_invalid_result_type = failed
result_of rpm now (parsed allowed count oldest) =
    let difference = rpm -ℤ count in
    answered record {
      allowed = allowed;
      remaining = if ltb_ℤ difference (pos 0) then pos 0 else difference;
      reset_at = reset_from now oldest;
    }

-- `run` is `script.Run` with the key, the time, the window, the limit and the member; `none` is an
-- error of the connection. `hex` are the digits of `randomHex(8)`.
module _ {S : Type 0} (run : String → ℕ → ℕ → ℤ → String → S → Option (List Value) × S) where
  unfoldable pub redis_allow_n : String → ℤ → ℕ → String → S → Answer × S
  unfolding parse_script_result ◌-ℤ◌
  redis_allow_n key rpm now hex s =
      let now_ms = now / 1_000_000 in
      let (res, s') = run ("rate:" ^^ key) now_ms 60_000 rpm (show (pos now_ms) ^^ ":" ^^ hex) s in
      if leb_ℤ rpm (pos 0)
      then (answered record { allowed = false; remaining = pos 0; reset_at = now + minute }, s)
      else elim res [
        | none ↦ (failed, s')
        | some values ↦ (result_of rpm now (parse_script_result values), s')
      ]

  -- `default` is the limiter's field `rpm`.
  unfoldable pub redis_allow : ℤ → String → ℕ → String → S → Answer × S
  unfolding redis_allow_n
  redis_allow default key now hex s = redis_allow_n key default now hex s
