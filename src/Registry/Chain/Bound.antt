-- ===== src/Registry/Chain/Bound.antt =====
-- How many tools one call may run.
use tool_smith.Base.{
  ℕ, zero, suc, ◌+◌, ◌≤◌, ◌≡◌, refl, true, false, not, Bool, Option, none, some, arith, Bytes,
  if◌then◌else◌,
}
use tool_smith.Base.Except.{Except, ok, throw}
use tool_smith.Json.{Json}
use tool_smith.Registry.{Registry, Strategies, resolve}
use tool_smith.Registry.Chain.{
  follow, run_tool, chain_from, execute_with_chaining, next_request, max_chain_depth,
}

module _ {W : Type 0} (strategies : Strategies W) (spent : Registry × W → ℕ)
    (each : (command : ℕ) (request : Json) (s : Registry × W)
      → spent (strategies.execute command request s).1 ≤ spent s + 1) where
  run_tool-le :
      (then_do : Except Json × (Registry × W) → Except Json × (Registry × W)) (n : ℕ)
      → ((o : Except Json × (Registry × W)) → spent (then_do o).1 ≤ spent o.1 + n)
      → (tool : Bytes) (request : Json) (s : Registry × W)
      → spent (run_tool strategies then_do tool request s).1 ≤ spent s + suc n
  unfolding run_tool
  run_tool-le then_do n h tool request (r, w) = go (resolve r tool) refl
    where
      go :
          (o : Option ℕ)
          → resolve r tool ≡ o
          → spent (run_tool strategies then_do tool request (r, w)).1 ≤ spent (r, w) + suc n
      go none e = rw (e, run_tool) (omega arith)
      go (some c) e =
          rw (e, run_tool)
            (omega (arith, h (strategies.execute c request (r, w)), each c request (r, w)))

  follow-le :
      (again : Bytes → Json → Registry × W → Except Json × (Registry × W)) (n : ℕ)
      → ((tool : Bytes) (request : Json) (s : Registry × W)
          → spent (again tool request s).1 ≤ spent s + n)
      → (o : Except Json × (Registry × W)) → spent (follow again o).1 ≤ spent o.1 + n
  unfolding follow
  follow-le again n h (throw e, s) = omega arith
  follow-le again n h (ok result, (r, w)) = go r.chaining_enabled (next_request result)
    where
      go :
          (chaining : Bool) (next : Except (Option (Bytes × Json)))
          → spent
              (if◌then◌else◌ {A = Except Json × (Registry × W)}
                (not chaining)
                (ok result, (r, w))
                (elim next [
                  | throw e ↦ (throw e, (r, w))
                  | ok none ↦ (ok result, (r, w))
                  | ok (some (tool, request)) ↦ again tool request (r, w)
                ])).1
            ≤ spent (r, w) + n
      go false next = omega arith
      go true (throw e) = omega arith
      go true (ok none) = omega arith
      go true (ok (some (tool, request))) = h tool request (r, w)

  chain_from-le :
      (left : ℕ) (tool : Bytes) (request : Json) (s : Registry × W)
      → spent (chain_from strategies left tool request s).1 ≤ spent s + suc left
  unfolding chain_from
  chain_from-le zero = run_tool-le (λ o. o) 0 (λ o. omega arith)
  chain_from-le (suc left) =
      run_tool-le (follow (chain_from strategies left)) (suc left)
        (follow-le (chain_from strategies left) (suc left) (chain_from-le left))

  -- If running one tool spends at most one unit of any count over the program's state, a call with
  -- chaining spends at most six: whatever the results ask for, at most six tools run.
  pub execute_with_chaining-le :
      (tool : Bytes) (request : Json) (s : Registry × W)
      → spent (execute_with_chaining strategies tool request s).1 ≤ spent s + 6
  unfolding execute_with_chaining
  execute_with_chaining-le tool request s = chain_from-le max_chain_depth tool request s

module _ {W : Type 0} (strategies : Strategies W)
    (keeps : (command : ℕ) (request : Json) (r : Registry) (w : W)
      → r.chaining_enabled ≡ false
      → (strategies.execute command request (r, w)).1.0.chaining_enabled ≡ false) where
  follow_off :
      (again : Bytes → Json → Registry × W → Except Json × (Registry × W))
      (o : Except Json × (Registry × W))
      → o.1.0.chaining_enabled ≡ false
      → follow again o ≡ o
  unfolding follow
  follow_off again (throw e, s) h = refl
  follow_off again (ok result, (r, w)) h = rw h

  run_tool_off :
      (again : Bytes → Json → Registry × W → Except Json × (Registry × W)) (tool : Bytes)
      (request : Json) (r : Registry) (w : W)
      → r.chaining_enabled ≡ false
      → run_tool strategies (follow again) tool request (r, w)
        ≡ run_tool strategies (λ o. o) tool request (r, w)
  unfolding run_tool
  run_tool_off again tool request r w h = go (resolve r tool) refl
    where
      go :
          (o : Option ℕ)
          → resolve r tool ≡ o
          → run_tool strategies (follow again) tool request (r, w)
            ≡ run_tool strategies (λ o. o) tool request (r, w)
      go none e = rw (e, run_tool)
      go (some c) e =
          rw (e, run_tool)
            (follow_off again (strategies.execute c request (r, w)) (keeps c request r w h))

  -- With chaining off, and no tool that turns it on, a call runs the one tool that it names and
  -- gives back its result, whatever "chain" the result holds.
  pub execute_with_chaining_off :
      (tool : Bytes) (request : Json) (r : Registry) (w : W)
      → r.chaining_enabled ≡ false
      → execute_with_chaining strategies tool request (r, w)
        ≡ run_tool strategies (λ o. o) tool request (r, w)
  unfolding execute_with_chaining chain_from
  execute_with_chaining_off tool request r w h = run_tool_off _ tool request r w h
