-- ===== src/Security/RateLimiter/Budget.antt =====
-- How much a client may send, and that clients do not disturb one another.
use tool_smith.Base.{
  ltb, ℕ, ◌+◌, ◌-◌, ◌*◌, ◌/◌, ◌%◌, ◌≤◌, ◌<◌, ◌≡◌, ◌≢◌, ap, Option, none, some, arith, Bytes, lookup,
  lookup-insert_ne, Bool-cases, inl, inr, Option-cases, AllValues, insert-AllValues,
  lookup-AllValues,
}
use native.Mathlib.Nat.{mul-le-mul_left, mul-add}
use tool_smith.Security.RateLimiter.{
  one_if, Bucket, RateLimiter, step_bucket, allow_request, size_mod, second, refill, fresh_bucket,
  spend,
}

-- A request changes no other client's bucket.
pub allow_request_isolated :
    (r : RateLimiter) (a b : Bytes) (now : ℕ)
    → a ≢ b
    → lookup b (allow_request r a now).1.buckets ≡ lookup b r.buckets
unfolding allow_request
allow_request_isolated r a b now h =
    lookup-insert_ne a b (step_bucket r.max_tokens now (lookup a r.buckets)).1 r.buckets h

-- Each bucket holds at most `max_tokens`.
abbrev pub IsWithin : RateLimiter → Type 0
IsWithin r = AllValues (λ b. b.tokens ≤ r.max_tokens) r.buckets

abbrev pub WithinOption : ℕ → Option Bucket → Type 0
WithinOption most none = Unit {0}
WithinOption most (some b) = b.tokens ≤ most

step_bucket-le :
    (most now : ℕ) (o : Option Bucket)
    → 0 < most
    → most < size_mod
    → WithinOption most o
    → (step_bucket most now o).1.tokens ≤ most
unfolding step_bucket
step_bucket-le most now none p q h = omega arith
step_bucket-le most now (some b) p q h = ground arith

lookup-WithinOption :
    (r : RateLimiter) (c : Bytes) → IsWithin r → WithinOption r.max_tokens (lookup c r.buckets)
lookup-WithinOption r c w = elim (Option-cases (lookup c r.buckets)) [
  | inl e ↦ rw e tt
  | inr (b, e) ↦ rw e (lookup-AllValues (λ b. b.tokens ≤ r.max_tokens) c r.buckets w e)
]

-- Under a limit that is positive and fits a size_t, a request keeps each bucket at no more tokens
-- than the limit.
pub allow_request-IsWithin :
    (r : RateLimiter) (c : Bytes) (now : ℕ)
    → 0 < r.max_tokens
    → r.max_tokens < size_mod
    → IsWithin r
    → IsWithin (allow_request r c now).1
unfolding allow_request
allow_request-IsWithin r c now p q w =
    insert-AllValues (λ b. b.tokens ≤ r.max_tokens) c _ r.buckets
      (step_bucket-le r.max_tokens now (lookup c r.buckets) p q (lookup-WithinOption r c w)) w

-- What the bucket still allows, weighed against the time that has passed since `start`.
abbrev pub Paid : ℕ → ℕ → ℕ → Option Bucket → Type 0
Paid most start used none = used ≡ 0
Paid most start used (some b) =
    (start ≤ b.last_refill)
    × (60 * second * (used + b.tokens) ≤ 60 * second * most + most * (b.last_refill - start))

abbrev pub NotBefore : ℕ → Option Bucket → Type 0
NotBefore now none = Unit {0}
NotBefore now (some b) = b.last_refill ≤ now

-- What a refill adds is paid for by the time since the last one.
gain-le :
    (most e gap : ℕ) → e * second ≤ gap → 60 * second * (e * most % size_mod / 60) ≤ most * gap
gain-le most e gap h = omega (arith, mul-le-mul_left most h)

budget_grows :
    (most start used now tokens last gained : ℕ)
    → start ≤ last
    → last ≤ now
    → gained ≤ tokens + ((now - last) / second * most % size_mod / 60)
    → 60 * second * (used + tokens) ≤ 60 * second * most + most * (last - start)
    → 60 * second * (used + gained) ≤ 60 * second * most + most * (now - start)
budget_grows most start used now tokens last gained s t g h =
    let whole : last - start + (now - last) ≡ now - start = omega arith in
    omega (
      arith,
      gain-le most ((now - last) / second) (now - last) (omega arith),
      mul-add most (last - start) (now - last),
      ap (λ (t : ℕ). most * t) whole,
    )

pub refill-Paid :
    (most start used now : ℕ) (b : Bucket)
    → b.last_refill ≤ now
    → Paid most start used (some b)
    → Paid most start used (some (refill most now b))
unfolding refill
refill-Paid most start used now b t h = elim (Bool-cases (ltb 0 ((now - b.last_refill) / second))) [
  | inl e ↦
      rw (e, refill)
        (
          omega arith,
          budget_grows most start used now b.tokens b.last_refill _ h.0 t (omega arith) h.1,
        )
  | inr e ↦ rw (e, refill) h
]

pub spend-Paid :
    (most start used : ℕ) (b : Bucket)
    → Paid most start used (some b)
    → Paid most start (used + one_if (spend b).0) (some (spend b).1)
unfolding spend
spend-Paid most start used b h = ground arith

pub fresh-Paid :
    (most start now : ℕ)
    → 0 < most
    → most < size_mod
    → start ≤ now
    → Paid most start 1 (some (fresh_bucket most now))
unfolding fresh_bucket
fresh-Paid most start now p q s = ground arith
