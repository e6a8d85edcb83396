-- ===== src/Security/RateLimiter.antt =====
-- src/security/RateLimiter.cpp and include/security/RateLimiter.h: a token bucket for each client.
-- A `steady_clock` time is its count of nanoseconds, and never goes back. `size_t` has 64 bits.
pub mod Budget
pub mod History
pub mod Starvation
use tool_smith.Base.{
  ℕ, suc, ◌+◌, ◌-◌, ◌*◌, ◌/◌, ◌%◌, ◌^◌, min, Bool, true, false, List, [], ◌∷◌, Option, none, some,
  ltb, if◌then◌else◌, Bytes, Dict, lookup, insert, str_eq, ◌&&◌,
}

abbrev pub size_mod : ℕ
size_mod = 2 ^ 64

abbrev pub second : ℕ
second = 1000000000

pub record Bucket : Type 0 where
  pub tokens : ℕ
  pub last_refill : ℕ

pub record RateLimiter : Type 0 where
  pub max_tokens : ℕ
  pub buckets : Dict Bucket

unfoldable pub init : ℕ → RateLimiter
init requests_per_minute = record { max_tokens = requests_per_minute; buckets = [] }

-- `m_MaxTokens - 1` wraps at zero.
unfoldable pub fresh_bucket : ℕ → ℕ → Bucket
fresh_bucket most now = record { tokens = (most + size_mod - 1) % size_mod; last_refill = now }

-- Refill in proportion to the whole seconds that have passed.
unfoldable pub refill : ℕ → ℕ → Bucket → Bucket
refill most now b =
    let elapsed = (now - b.last_refill) / second in
    if ltb 0 elapsed
    then record b {
      tokens = min most ((b.tokens + elapsed * most % size_mod / 60) % size_mod);
      last_refill = now;
    }
    else b

unfoldable pub spend : Bucket → Bool × Bucket
spend b = if ltb 0 b.tokens then (true, record b { tokens = b.tokens - 1 }) else (false, b)

-- What a request does to the bucket of its own client.
unfoldable pub step_bucket : ℕ → ℕ → Option Bucket → Bool × Bucket
unfolding fresh_bucket refill spend
step_bucket most now none = (true, fresh_bucket most now)
step_bucket most now (some b) = spend (refill most now b)

unfoldable pub allow_request : RateLimiter → Bytes → ℕ → Bool × RateLimiter
allow_request r client now =
    let (allowed, b) = step_bucket r.max_tokens now (lookup client r.buckets) in
    (allowed, record r { buckets = insert client b r.buckets })

unfoldable pub reset : RateLimiter → RateLimiter
reset r = record r { buckets = [] }

-- A history of requests, each with its time, and how many of a client's were allowed.
unfoldable pub run : RateLimiter → List (Bytes × ℕ) → RateLimiter
run r [] = r
run r ((client, now) ∷ rest) = run (allow_request r client now).1 rest

abbrev pub one_if : Bool → ℕ
one_if b = if b then 1 else 0

unfoldable pub granted : Bytes → RateLimiter → List (Bytes × ℕ) → ℕ
granted who r [] = 0
granted who r ((client, now) ∷ rest) =
    let (allowed, r') = allow_request r client now in
    one_if (str_eq client who && allowed) + granted who r' rest
