-- ===== src/Security/RateLimiter/History.antt =====
-- The budget of a client over a whole history of requests, its own and those of others.
use native.Mathlib.Nat.{mul-le-mul_left}
use tool_smith.Base.{
  ℕ, ◌+◌, ◌-◌, ◌*◌, ◌≤◌, ◌<◌, ◌≡◌, refl, List, [], ◌∷◌, Option, none, some, arith, Bytes, lookup,
  lookup-insert_self, lookup-insert_ne, ne_of_str_eq, sym, subst, ◌≢◌, str_eq_sound, str_eq,
  Bool-cases, inl, inr,
}
use tool_smith.Security.RateLimiter.{
  Bucket, one_if, RateLimiter, step_bucket, allow_request, granted, size_mod, second, init, refill,
}
use tool_smith.Security.RateLimiter.Budget.{Paid, NotBefore, refill-Paid, spend-Paid, fresh-Paid}

-- The times of a history do not go back.
abbrev pub Ordered : ℕ → List (Bytes × ℕ) → Type 0
Ordered t [] = Unit {0}
Ordered t ((client, now) ∷ rest) = (t ≤ now) × Ordered now rest

abbrev pub last_time : ℕ → List (Bytes × ℕ) → ℕ
last_time t [] = t
last_time t ((client, now) ∷ rest) = last_time now rest

step_bucket-Paid :
    (most start used now : ℕ) (o : Option Bucket)
    → 0 < most
    → most < size_mod
    → start ≤ now
    → NotBefore now o
    → Paid most start used o
    → Paid most start (used + one_if (step_bucket most now o).0) (some (step_bucket most now o).1)
      × ((step_bucket most now o).1.last_refill ≤ now)
unfolding step_bucket
step_bucket-Paid most start used now none p q s t h =
    rw h (fresh-Paid most start now p q s, omega arith)
step_bucket-Paid most start used now (some b) p q s t h = (
  spend-Paid most start used (refill most now b) (refill-Paid most start used now b t h),
  ground arith,
)

Paid-later :
    (most start used t : ℕ) (o : Option Bucket)
    → NotBefore t o
    → Paid most start used o
    → 60 * second * used ≤ 60 * second * most + most * (t - start)
Paid-later most start used t none n h = rw h (omega arith)
Paid-later most start used t (some b) n h =
    let longer : b.last_refill - start ≤ t - start = omega arith in
    omega (arith, h.1, mul-le-mul_left most longer)

NotBefore-later : (t now : ℕ) (o : Option Bucket) → t ≤ now → NotBefore t o → NotBefore now o
NotBefore-later t now none h n = tt
NotBefore-later t now (some b) h n = omega arith

module _ (who : Bytes) (most start : ℕ) (p : 0 < most) (q : most < size_mod) where
  -- The state of a history at time `t`, when `used` requests of the client have been allowed.
  record State (used t : ℕ) (r : RateLimiter) : Type 0 where
    limit : r.max_tokens ≡ most
    begun : start ≤ t
    before : NotBefore t (lookup who r.buckets)
    paid : Paid most start used (lookup who r.buckets)

  own-State :
      (used t now : ℕ) (r : RateLimiter)
      → t ≤ now
      → State used t r
      → State (used + one_if (allow_request r who now).0) now (allow_request r who now).1
  unfolding allow_request
  own-State used t now r h v =
      let (paid, before) =
        step_bucket-Paid r.max_tokens start used now (lookup who r.buckets) (rw v.limit p)
          (rw v.limit q) (omega (arith, v.begun)) (NotBefore-later t now _ h v.before)
          (rw v.limit v.paid) in
      record {
        limit = v.limit;
        begun = omega (arith, v.begun);
        before = rw (lookup-insert_self who _ r.buckets) before;
        paid = rw (← v.limit, lookup-insert_self who _ r.buckets) paid;
      }

  other-State :
      (c : Bytes) (used t now : ℕ) (r : RateLimiter)
      → t ≤ now
      → c ≢ who
      → State used t r
      → State used now (allow_request r c now).1
  unfolding allow_request
  other-State c used t now r h d v = record {
    limit = v.limit;
    begun = omega (arith, v.begun);
    before = rw (lookup-insert_ne c who _ r.buckets d) (NotBefore-later t now _ h v.before);
    paid = rw (lookup-insert_ne c who _ r.buckets d) v.paid;
  }

  granted-State :
      (hist : List (Bytes × ℕ)) (r : RateLimiter) (used t : ℕ)
      → Ordered t hist
      → State used t r
      → 60 * second * (used + granted who r hist)
        ≤ 60 * second * most + most * (last_time t hist - start)
  unfolding granted
  granted-State [] r used t o v =
      omega (arith, Paid-later most start used t (lookup who r.buckets) v.before v.paid)
  granted-State ((c, now) ∷ rest) r used t o v = elim (Bool-cases (str_eq c who)) [
    | inl same ↦
        let own =
          subst (λ d. State (used + one_if (allow_request r d now).0) now (allow_request r d now).1)
            (sym (str_eq_sound c who same)) (own-State used t now r o.0 v) in
        rw same (omega (arith, granted-State rest (allow_request r c now).1 _ now o.1 own))
    | inr differs ↦
        let skip = other-State c used t now r o.0 (ne_of_str_eq c who differs) v in
        rw differs (omega (arith, granted-State rest (allow_request r c now).1 used now o.1 skip))
  ]

-- From a limiter with no buckets, with a limit that is positive and fits a size_t, the number of a
-- client's requests allowed in a history whose times do not go back (other clients' requests among
-- it) is at most the limit plus a sixtieth of it for each second that the history lasts.
pub granted-init-le :
    (who : Bytes) (most start : ℕ) (hist : List (Bytes × ℕ))
    → 0 < most
    → most < size_mod
    → Ordered start hist
    → 60 * second * granted who (init most) hist
      ≤ 60 * second * most + most * (last_time start hist - start)
unfolding init lookup
granted-init-le who most start hist p q o = omega (
  arith,
  granted-State who most start p q hist (init most) 0 start o
      (record { limit = refl; begun = omega arith; before = tt; paid = refl }),
)
