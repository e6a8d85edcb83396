-- ===== src/Tests/Tools.antt =====
-- A registry with two tools.
use tool_smith.Base.{
  ◌≡◌, ◌≤◌, ◌+◌, ℕ, suc, refl, true, false, Bytes, ascii, [], ◌∷◌, arith, str_eq, lookup,
}
use tool_smith.Base.Except.{ok}
use tool_smith.Json.{Json, find_field, null, obj, str, field, end}
use tool_smith.Registry.{Registry, Strategies, built_in, resolve}
use tool_smith.Registry.Chain.{
  execute_with_chaining, run_tool, chain_from, follow, next_request, next_of, text_or,
}
use tool_smith.Registry.Chain.Bound.{execute_with_chaining-le}

abbrev echo : Bytes
echo = ascii "echo"

abbrev again : Json
again = obj (field (ascii "chain") (obj (field (ascii "tool") (str echo) end)) end)

-- Each tool asks for "echo" again, and counts its calls.
abbrev looping : Strategies ℕ
looping = record {
  execute = λ c request s. (ok again, (s.0, suc s.1));
  metadata = λ c w. record {
    name = [];
    description = [];
    input_schema = null;
    default_model = [];
    default_parameters = null;
    source = built_in;
    hidden = false;
  };
  shutdown = λ c w. w;
}

abbrev tools : Registry
tools = record {
  commands = (echo, 1) ∷ (ascii "read", 2) ∷ [];
  advertised = [];
  filter_advertised = false;
  chaining_enabled = true;
}

one_more : (n : ℕ) → suc n ≤ n + 1
one_more n = omega arith

-- Six calls, no more.
loop_six : (execute_with_chaining looping echo null (tools, 0)).1.1 ≡ 6
unfolding execute_with_chaining chain_from run_tool follow next_request next_of text_or resolve
    lookup str_eq find_field
loop_six = refl

execute_with_chaining-le_example : (execute_with_chaining looping echo null (tools, 0)).1.1 ≤ 0 + 6
execute_with_chaining-le_example =
    execute_with_chaining-le looping (λ s. s.1) (λ c request s. one_more s.1) echo null (tools, 0)
