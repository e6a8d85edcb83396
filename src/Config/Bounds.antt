-- ===== src/Config/Bounds.antt =====
-- Bounds of numbers.
use tool_smith.Base.{ℕ, ◌≤◌, ◌≡◌, arith}
use tool_smith.Base.Except.{Except, ok, throw, ◌>>=◌}
use tool_smith.Json.{Json}
use tool_smith.Config.{between_1_and_8, get_thread_pool_size}

bounded : (n : ℕ) → (1 ≤ between_1_and_8 n) × (between_1_and_8 n ≤ 8)
bounded n = (ground arith, ground arith)

bounded_result :
    (x : Except ℕ) (n : ℕ) → (x >>= λ m. ok (between_1_and_8 m)) ≡ ok n → (1 ≤ n) × (n ≤ 8)
bounded_result (throw e) n h = cc
bounded_result (ok m) n h = let same : between_1_and_8 m ≡ n = cc in rw same at (bounded m)

-- A pool has from one to eight threads, whatever the configuration and the machine say.
pub get_thread_pool_size-bounded :
    (get_size : Json → Except ℕ) (processors : ℕ) (config : Json) (n : ℕ)
    → get_thread_pool_size get_size processors config ≡ ok n
    → (1 ≤ n) × (n ≤ 8)
unfolding get_thread_pool_size
get_thread_pool_size-bounded get_size processors config n h = bounded_result _ n h
