-- ===== src/Protocol.antt =====
-- src/core/ProtocolHandler.cpp and include/core/ProtocolHandler.h: the checks on a request, in order,
-- and its handling. The parser, the printer and the schema validator are third-party code and are
-- parameters; a time is given with each request, for the rate limiter.
pub mod Guards
pub mod Errors
use tool_smith.Base.{
  ℕ, Bool, true, false, not, Option, none, some, List, [], ◌∷◌, ◌++◌, Bytes, ascii, if◌then◌else◌,
}
use tool_smith.Base.Except.{Except, ok, throw, type_error, Exn}
use tool_smith.Json.{
  Json, null, bool, int, real, str, arr, obj, Elems, nil, cons, Fields, end, field, find,
}
use tool_smith.Security.RateLimiter.{RateLimiter, allow_request}
use tool_smith.Security.ApiKey.{ApiKeyValidator, validate}
use tool_smith.Validation.{validate_payload_size, validate_json_depth, default_max_depth}
use tool_smith.Registry.{Registry, Strategies, resolve, list_commands}
use tool_smith.Registry.Chain.{execute_with_chaining}

-- What the handler is built from, and the third-party code that it calls: `parse` fails where
-- `nlohmann::json::parse` throws, `dump` throws on text that is not UTF-8, and the two tests are
-- `JsonSchemaValidator::Validate` for `requestSchema` and `responseSchema`.
pub record Setup (W : Type 0) : Type 0 where
  pub strategies : Strategies W
  pub api_key_validator : Option ApiKeyValidator
  pub max_body_size : ℕ
  pub parse : Bytes → Option Json
  pub dump : Json → Except Bytes
  pub request_validates : Json → Bool
  pub response_validates : Json → Bool

-- The state: the rate limiter, if there is one, and the registry with the tools' own state.
pub record Server (W : Type 0) : Type 0 where
  pub rate_limiter : Option RateLimiter
  pub tools : Registry × W

abbrev error_of : Bytes → Fields → Json
error_of message more =
    obj (field (ascii "status") (str (ascii "error")) (field (ascii "error") (str message) more))

abbrev names : List Bytes → Elems
names [] = nil
names (n ∷ ns) = cons (str n) (names ns)

abbrev pub invalid_schema : Json
invalid_schema = error_of (ascii "Invalid request schema") end

abbrev pub not_available : Bytes → List Bytes → Json
not_available command commands =
    error_of (ascii "Unknown command: " ++ command)
      (field (ascii "available_commands") (arr (names commands)) end)

abbrev pub execution_failed : Json
execution_failed = error_of (ascii "Command execution failed") end

-- `request["command"].get<std::string>()`. The schema asks for the member, so it is never missing.
unfoldable pub command_of : Json → Except Bytes
command_of request = elim (find (ascii "command") request) [
  | none ↦ throw type_error
  | some j ↦ elim j [ str s ↦ ok s | _ ↦ throw type_error ]
]

-- The `try` block.
unfoldable pub caught {ℓ} : {S : Type ℓ} → Except Json × S → Except Json × S
caught (ok result, s) = (ok result, s)
caught (throw e, s) = (ok execution_failed, s)

unfoldable pub call_tool :
    {W : Type 0} → Setup W → Bytes → Json → Registry × W → Except Json × (Registry × W)
unfolding caught
call_tool setup command request (r, w) = elim (resolve r command) [
  | none ↦ (ok (not_available command (list_commands r)), (r, w))
  | some _ ↦ caught (execute_with_chaining setup.strategies command request (r, w))
]

unfoldable pub handle : {W : Type 0} → Setup W → Json → Registry × W → Except Json × (Registry × W)
unfolding call_tool
handle setup request s =
    if not (setup.request_validates request)
    then (ok invalid_schema, s)
    else elim (command_of request) [
      | throw e ↦ (throw e, s)
      | ok command ↦ call_tool setup command request s
    ]

abbrev refusal : Bytes → Bytes
refusal message = ascii "{\"status\":\"error\",\"error\":\"" ++ (message ++ ascii "\"}")

unfoldable pub create_response : {W : Type 0} → Setup W → Json → Except Bytes
create_response setup result =
    if not (setup.response_validates result)
    then ok (refusal (ascii "Invalid response"))
    else setup.dump result

unfoldable pub respond {ℓ} :
    {W : Type 0} {S : Type ℓ} → Setup W → Except Json × S → Except Bytes × S
unfolding create_response
respond setup (throw e, s) = (throw e, s)
respond setup (ok result, s) = (create_response setup result, s)

-- From the parser on.
unfoldable pub handle_body :
    {W : Type 0} → Setup W → Bytes → Registry × W → Except Bytes × (Registry × W)
unfolding handle respond
handle_body setup body s = elim (setup.parse body) [
  | none ↦ (ok (refusal (ascii "Invalid JSON")), s)
  | some request ↦
      if not (validate_json_depth request default_max_depth)
      then (ok (refusal (ascii "JSON nesting too deep")), s)
      else respond setup (handle setup request s)
]

-- `!m_RateLimiter || m_RateLimiter->AllowRequest(clientIp)`, and the limiter after it.
unfoldable pub admit : Option RateLimiter → Bytes → ℕ → Bool × Option RateLimiter
admit none client now = (true, none)
admit (some r) client now = let (allowed, r') = allow_request r client now in (allowed, some r')

-- `Validate` lets every header pass where the check is not enabled.
unfoldable pub authorised : Option ApiKeyValidator → Bytes → Bool
authorised none header = true
authorised (some v) header = if v.enabled then validate v header else true

unfoldable pub handle_request :
    {W : Type 0} → Setup W → Bytes → Bytes → Bytes → ℕ → Server W → Except Bytes × Server W
unfolding admit authorised handle_body
handle_request setup body client auth now s =
    if not (validate_payload_size body setup.max_body_size)
    then (ok (refusal (ascii "Payload too large")), s)
    else let (allowed, limiter) = admit s.rate_limiter client now in
      if not allowed
      then (ok (refusal (ascii "Rate limit exceeded")), record s { rate_limiter = limiter })
      else if not (authorised setup.api_key_validator auth)
      then (ok (refusal (ascii "Unauthorized")), record s { rate_limiter = limiter })
      else let (response, tools') = handle_body setup body s.tools in
        (response, record s { rate_limiter = limiter; tools = tools' })
