-- ===== src/Security/RateLimiter/Starvation.antt =====
-- Two ways in which the limiter departs from its limit: a refill that rounds down to nothing still
-- moves the refill time, and a limit of zero wraps.
use tool_smith.Base.{
  zero, suc, ℕ, ◌+◌, ◌-◌, ◌*◌, ◌/◌, ◌%◌, ◌≤◌, ◌<◌, ◌≡◌, refl, true, false, List, [], ◌∷◌, some,
  arith, Bytes, lookup, insert, lookup-insert_self, str_eq_refl,
}
use tool_smith.Security.RateLimiter.{
  Bucket, RateLimiter, step_bucket, allow_request, granted, size_mod, second, init, refill, spend,
  fresh_bucket,
}

-- A client's own requests, as a history.
abbrev pub own : Bytes → List ℕ → List (Bytes × ℕ)
own who [] = []
own who (now ∷ rest) = (who, now) ∷ own who rest

-- Each request comes at most a second after the one before it.
abbrev pub EverySecond : ℕ → List ℕ → Type 0
EverySecond t [] = Unit {0}
EverySecond t (now ∷ rest) = (t ≤ now) × (now ≤ t + second) × EverySecond now rest

record Dry (t : ℕ) (b : Bucket) : Type 0 where
  empty : b.tokens ≡ 0
  begun : b.last_refill ≤ t
  recent : t < b.last_refill + second

small_refill : (e most : ℕ) → e ≤ 1 → most < 60 → e * most % size_mod / 60 ≡ 0
small_refill zero most h m = omega arith
small_refill (suc zero) most h m = omega arith
small_refill (suc (suc e)) most h m = absurd (omega arith)

refill-Dry :
    (most t now : ℕ) (b : Bucket)
    → most < 60
    → t ≤ now
    → now ≤ t + second
    → Dry t b
    → Dry now (refill most now b)
unfolding refill
refill-Dry most t now b m p q d = ground (arith, small_refill ((now - b.last_refill) / second) most)

spend-Dry : (t : ℕ) (b : Bucket) → Dry t b → spend b ≡ (false, b)
unfolding spend
spend-Dry t b d = rw d.empty

refused :
    (who : Bytes) (now : ℕ) (r : RateLimiter) (b : Bucket)
    → lookup who r.buckets ≡ some b
    → Dry now (refill r.max_tokens now b)
    → allow_request r who now
      ≡ (false, record r { buckets = insert who (refill r.max_tokens now b) r.buckets })
unfolding allow_request step_bucket
refused who now r b e d = rw (e, allow_request, spend-Dry now (refill r.max_tokens now b) d)

-- A client whose bucket is empty, under a limit below sixty a minute, is refused for ever as long
-- as it asks at least once a second: each request moves the refill time and adds nothing.
pub granted-starved :
    (who : Bytes) (times : List ℕ) (t : ℕ) (r : RateLimiter) (b : Bucket)
    → r.max_tokens < 60
    → lookup who r.buckets ≡ some b
    → b.tokens ≡ 0
    → b.last_refill ≤ t
    → t < b.last_refill + second
    → EverySecond t times
    → granted who r (own who times) ≡ 0
unfolding granted
granted-starved who [] t r b m e z p q gaps = refl
granted-starved who (now ∷ times) t r b m e z p q gaps =
    let dry =
      refill-Dry r.max_tokens t now b m gaps.0 gaps.1
        (record { empty = z; begun = p; recent = q }) in
    rw (refused who now r b e dry, str_eq_refl who)
      (omega (
        arith,
        granted-starved who times now _ (refill r.max_tokens now b) m
            (lookup-insert_self who (refill r.max_tokens now b) r.buckets) dry.empty dry.begun
            dry.recent gaps.2,
      ))

abbrev pub at_once : ℕ → ℕ → List ℕ
at_once zero now = []
at_once (suc n) now = now ∷ at_once n now

step_bucket-instant :
    (most now : ℕ) (b : Bucket)
    → b.last_refill ≡ now
    → 0 < b.tokens
    → step_bucket most now (some b) ≡ (true, record b { tokens = b.tokens - 1 })
unfolding step_bucket refill spend
step_bucket-instant most now b l h = ground arith

allowed :
    (who : Bytes) (now : ℕ) (r : RateLimiter) (b : Bucket)
    → lookup who r.buckets ≡ some b
    → b.last_refill ≡ now
    → 0 < b.tokens
    → allow_request r who now
      ≡ (true, record r { buckets = insert who (record b { tokens = b.tokens - 1 }) r.buckets })
unfolding allow_request
allowed who now r b e l h = rw (e, step_bucket-instant r.max_tokens now b l h)

granted_tokens :
    (who : Bytes) (n now : ℕ) (r : RateLimiter) (b : Bucket)
    → lookup who r.buckets ≡ some b
    → b.last_refill ≡ now
    → n ≤ b.tokens
    → granted who r (own who (at_once n now)) ≡ n
unfolding granted
granted_tokens who zero now r b e l h = refl
granted_tokens who (suc n) now r b e l h =
    rw (allowed who now r b e l (omega arith), str_eq_refl who)
      (omega (
        arith,
        granted_tokens who n now _ (record b { tokens = b.tokens - 1 })
            (lookup-insert_self who _ r.buckets) l (omega arith),
      ))

-- With a limit of zero the first request of a client fills its bucket to 2 ^ 64 - 1, so any number
-- of requests from 1 to 2 ^ 64 that come at one instant are all allowed.
pub granted-zero_limit :
    (who : Bytes) (n now : ℕ)
    → n < size_mod
    → granted who (init 0) (own who (at_once (suc n) now)) ≡ suc n
unfolding granted init allow_request step_bucket lookup
granted-zero_limit who n now h = rw (str_eq_refl who) (
    omega (
      arith,
      granted_tokens who n now _ (fresh_bucket 0 now)
          (lookup-insert_self who (fresh_bucket 0 now) []) refl (omega arith),
    ))
