-- ===== src/Tests/Limits.antt =====
-- The rate limiter on small histories.
use tool_smith.Base.{
  ◌≡◌, ◌≢◌, ◌≤◌, ◌*◌, ◌+◌, ◌-◌, refl, arith, ℕ, Bytes, ascii, List, [], ◌∷◌, lookup, insert, str_eq,
  some,
}
use tool_smith.Security.RateLimiter.{RateLimiter, init, allow_request, granted, second, step_bucket}
use tool_smith.Security.RateLimiter.History.{granted-init-le, last_time}
use tool_smith.Security.RateLimiter.Starvation.{granted-starved, own}

abbrev alice : Bytes
alice = ascii "alice"

abbrev bob : Bytes
bob = ascii "bob"

abbrev burst : List (Bytes × ℕ)
burst = (alice, 5) ∷ (bob, 6) ∷ (alice, 7) ∷ (alice, 60000000007) ∷ []

-- Of three requests at a limit of one a minute the first and the last are allowed.
granted-burst : granted alice (init 1) burst ≡ 2
unfolding granted init allow_request step_bucket str_eq lookup insert
granted-burst = refl

granted-init-le_example :
    60 * second * granted alice (init 1) burst ≤ 60 * second * 1 + 1 * (last_time 5 burst - 5)
granted-init-le_example =
    granted-init-le alice 1 5 burst (omega arith) (omega arith)
      (omega arith, (omega arith, (omega arith, (omega arith, tt))))

abbrev drained : RateLimiter
drained = record { max_tokens = 2; buckets = (alice, record { tokens = 0; last_refill = 10 }) ∷ [] }

alice_is_not_bob : alice ≢ bob
alice_is_not_bob e = cc

alice_drained : lookup alice drained.buckets ≡ some (record { tokens = 0; last_refill = 10 })
unfolding lookup str_eq
alice_drained = refl

granted-starved_example : granted alice drained (own alice (900000000 ∷ 1800000000 ∷ [])) ≡ 0
granted-starved_example =
    granted-starved alice (900000000 ∷ 1800000000 ∷ []) 10 drained
      (record { tokens = 0; last_refill = 10 }) (omega arith) alice_drained refl (omega arith)
      (omega arith) (omega arith, omega arith, (omega arith, omega arith, tt))
