-- ===== src/Tests/Requests.antt =====
-- A server with one tool, a key and a limit, and a parser that knows one body.
use tool_smith.Base.{
  ◌≡◌, ◌≢◌, ◌++◌, ℕ, suc, refl, true, false, Bool, Bytes, ascii, [], ◌∷◌, none, some, arith, str_eq,
  if◌then◌else◌, lookup, insert, ap, sym, ◌∙◌, All,
}
use tool_smith.Base.Except.{Except, ok, throw, type_error}
use tool_smith.Json.{Json, find_field, null, obj, str, field, end}
use tool_smith.Registry.{built_in, resolve}
use tool_smith.Registry.Chain.{
  execute_with_chaining, run_tool, chain_from, follow, next_request, next_of, text_or,
}
use tool_smith.Security.RateLimiter.{init, allow_request, step_bucket, fresh_bucket}
use tool_smith.Security.ApiKey.{validate, bearer, differences, promote}
use tool_smith.Security.ApiKey.Exact.{IsByte}
use tool_smith.Validation.{validate_payload_size, validate_json_depth, check_depth}
use tool_smith.Protocol.{
  Setup, Server, command_of, call_tool, caught, handle, respond, handle_body, admit, authorised,
  handle_request, create_response,
}
use tool_smith.Protocol.Guards.{IsAdmitted, handle_request-IsAdmitted, handle_request-bearer}
use tool_smith.Protocol.Errors.{handle_request-throws}

abbrev echo : Bytes
echo = ascii "echo"

abbrev call : Json
call = obj (field (ascii "command") (str echo) end)

abbrev body : Bytes
body = ascii "call"

abbrev is_ok : Except Bytes → Bool
is_ok (ok s) = true
is_ok (throw e) = false

named : (x : Except Bytes) → is_ok x ≡ true → (s : Bytes) × (x ≡ ok s)
named (ok s) h = (s, refl)
named (throw e) h = cc

-- The printer fails on every value, to show what follows.
abbrev setup : Setup ℕ
setup = record {
  strategies = record {
    execute = λ c request s. (ok call, (s.0, suc s.1));
    metadata = λ c w. record {
      name = [];
      description = [];
      input_schema = null;
      default_model = [];
      default_parameters = null;
      source = built_in;
      hidden = false;
    };
    shutdown = λ c w. w;
  };
  api_key_validator = some (record { expected_key = ascii "k"; enabled = true });
  max_body_size = 100;
  parse = λ text. if str_eq text body then some call else none;
  dump = λ result. throw type_error;
  request_validates = λ request. is_ok (command_of request);
  response_validates = λ result. true;
}

abbrev server : Server ℕ
server = record {
  rate_limiter = some (init 5);
  tools = (
    record {
      commands = (echo, 1) ∷ [];
      advertised = [];
      filter_advertised = false;
      chaining_enabled = true;
    },
    0,
  );
}

abbrev header : Bytes
header = ascii "Bearer k"

abbrev answer : Except Bytes × Server ℕ
answer = handle_request setup body echo header 7 server

one_call : (answer.1.tools.1 ≡ 1) × (answer.0 ≡ throw type_error)
unfolding handle_request handle_body handle respond create_response call_tool caught command_of
    admit authorised validate differences promote allow_request step_bucket init fresh_bucket lookup
    insert str_eq validate_payload_size validate_json_depth check_depth execute_with_chaining
    chain_from run_tool follow next_request next_of text_or resolve find_field
one_call = (refl, refl)

ran : answer.1.tools ≢ server.tools
ran same =
    let counted : 0 ≡ 1 = ap (λ t. t.1) (sym same) ∙ one_call.0 in absurd (omega (arith, counted))

handle_request-IsAdmitted_example : IsAdmitted setup body echo header 7 server
handle_request-IsAdmitted_example = handle_request-IsAdmitted setup body echo header 7 server ran

header_bytes : All IsByte header
header_bytes = (
  omega arith,
  (
    omega arith,
    (omega arith, (omega arith, (omega arith, (omega arith, (omega arith, (omega arith, tt)))))),
  ),
)

handle_request-bearer_example : (ascii "k" ≢ []) × (header ≡ bearer ++ ascii "k")
handle_request-bearer_example =
    handle_request-bearer setup (ascii "k") body echo header 7 server refl (omega arith, tt)
      header_bytes ran

has_command :
    (request : Json)
    → setup.request_validates request ≡ true
    → (command : Bytes) × (command_of request ≡ ok command)
has_command request h = named (command_of request) h

handle_request-throws_example : (result : Json) × (setup.dump result ≡ throw type_error)
handle_request-throws_example =
    handle_request-throws setup has_command body echo header 7 server type_error one_call.1
