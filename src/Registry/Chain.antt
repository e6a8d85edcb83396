-- ===== src/Registry/Chain.antt =====
-- `ExecuteWithChaining`: a result may name the next tool to call, five times at most.
pub mod Bound
use tool_smith.Base.{
  ℕ, zero, suc, Bool, true, false, not, Option, none, some, [], Bytes, ascii, ◌++◌, is_empty,
  if◌then◌else◌,
}
use tool_smith.Base.Except.{Except, ok, throw, type_error}
use tool_smith.Json.{Json, null, bool, int, real, str, arr, obj, Fields, end, field, find}
use tool_smith.Registry.{Registry, Strategies, resolve}

abbrev pub max_chain_depth : ℕ
max_chain_depth = 5

abbrev pub unknown_command : Bytes → Json
unknown_command tool = obj (
    field (ascii "status") (str (ascii "error"))
      (field (ascii "error") (str (ascii "Unknown command: " ++ tool)) end))

-- `chain.value("tool", "")` throws where the value is no string.
unfoldable pub text_or : Bytes → Option Json → Except Bytes
text_or default none = ok default
text_or default (some (str s)) = ok s
text_or default (some _) = throw type_error

abbrev pub value_or : Json → Option Json → Json
value_or default none = default
value_or default (some j) = j

-- What a result asks for: nothing, or a tool and its request.
unfoldable pub next_of : Fields → Except (Option (Bytes × Json))
unfolding text_or
next_of chain = elim (text_or [] (find (ascii "tool") (obj chain))) [
  | throw e ↦ throw e
  | ok tool ↦
      if is_empty tool
      then ok none
      else ok (
          some (
            tool,
            obj (
                field (ascii "command") (str tool) (
                  field (ascii "payload") (value_or (obj end) (find (ascii "args") (obj chain)))
                    end)),
          ))
]

-- Only a member "chain" that is an object asks.
unfoldable pub next_request : Json → Except (Option (Bytes × Json))
unfolding next_of
next_request result = elim (find (ascii "chain") result) [
  | none ↦ ok none
  | some j ↦ elim j [ obj chain ↦ next_of chain | _ ↦ ok none ]
]

-- What follows a call: the result as it is, or the tool that it asks for.
unfoldable pub follow {ℓ} :
    {W : Type ℓ}
    → (Bytes → Json → Registry × W → Except Json × (Registry × W))
    → Except Json × (Registry × W)
    → Except Json × (Registry × W)
follow again (throw e, s) = (throw e, s)
follow again (ok result, (r, w)) =
    if not r.chaining_enabled then (ok result, (r, w)) else elim (next_request result) [
      | throw e ↦ (throw e, (r, w))
      | ok none ↦ (ok result, (r, w))
      | ok (some (tool, request)) ↦ again tool request (r, w)
    ]

-- The first argument is `kMaxChainDepth - depth`, the number of calls that may still follow.
unfoldable pub run_tool :
    {W : Type 0}
    → Strategies W
    → (Except Json × (Registry × W) → Except Json × (Registry × W))
    → Bytes
    → Json
    → Registry × W
    → Except Json × (Registry × W)
run_tool strategies then_do tool request (r, w) = elim (resolve r tool) [
  | none ↦ (ok (unknown_command tool), (r, w))
  | some command ↦ then_do (strategies.execute command request (r, w))
]

unfoldable pub chain_from :
    {W : Type 0} → Strategies W → ℕ → Bytes → Json → Registry × W → Except Json × (Registry × W)
chain_from strategies zero = run_tool strategies (λ outcome. outcome)
chain_from strategies (suc left) = run_tool strategies (follow (chain_from strategies left))

unfoldable pub execute_with_chaining :
    {W : Type 0} → Strategies W → Bytes → Json → Registry × W → Except Json × (Registry × W)
execute_with_chaining strategies = chain_from strategies max_chain_depth
