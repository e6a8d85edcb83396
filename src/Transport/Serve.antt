-- ===== src/Transport/Serve.antt =====
-- `Dispatch` and `Run`. The pool may run a submitted call at any time; here it runs where it is submitted.
-- The transport's `m_Running` only ends the loop early and is left out.
pub mod Replies
pub mod Files
pub mod Gate
pub mod Lines
pub mod Early
use tool_smith.Base.{
  Bool, true, false, not, ◌&&◌, ◌||◌, Option, none, some, List, [], ◌∷◌, ◌++◌, Bytes, ascii, str_eq,
  is_empty, if◌then◌else◌, ◌==◌,
}
use tool_smith.Base.Except.{Except, ok, throw, type_error, Exn}
use tool_smith.Json.{Json, null, bool, str, obj, Fields, end, field, find, has, is_object, is_null}
use tool_smith.Registry.Chain.{text_or, value_or}
use tool_smith.Transport.{
  Host, Transport, make_response, make_error, message_id, invalid_request, parse_error,
  method_not_found,
}
use tool_smith.Transport.Calls.{
  handle_tools_list, handle_tools_call, handle_tools_call_batch, handle_cancel,
}
use tool_smith.Transport.Prompts.{handle_prompts_list, handle_prompts_get}
use tool_smith.Transport.Resources.{
  handle_resources_list, handle_resources_read, handle_resources_subscribe,
  handle_resources_unsubscribe,
}

abbrev capabilities : Json
capabilities = obj (
    field (ascii "tools") (obj (field (ascii "listChanged") (bool true) end)) (
      field (ascii "prompts") (obj end)
        (field (ascii "resources") (obj (field (ascii "subscribe") (bool true) end)) end)))

unfoldable pub handle_initialize : {W : Type 0} → Host W → Json → Transport W → Json × Transport W
handle_initialize host id t = (
  make_response id (
      obj (
        field (ascii "protocolVersion") (str (ascii "2024-11-05")) (
          field (ascii "capabilities") capabilities (
            field (ascii "serverInfo")
              (obj (
                field (ascii "name") (str host.server_name)
                  (field (ascii "version") (str host.server_version) end)))
              end)))),
  record t { initialized = true },
)

abbrev pub returns {ℓ} : {S : Type ℓ} → Json × S → Except Json × S
returns (j, s) = (ok j, s)

-- The methods that need initialization.
unfoldable pub serve_method :
    {W : Type 0} → Host W → Bytes → Json → Json → Transport W → Except Json × Transport W
serve_method host method params id t =
    if str_eq method (ascii "tools/list")
    then (ok (handle_tools_list host id t), t)
    else if str_eq method (ascii "tools/call")
    then handle_tools_call host params id t
    else if str_eq method (ascii "tools/call_batch")
    then handle_tools_call_batch host params id t
    else if str_eq method (ascii "prompts/list")
    then (handle_prompts_list host id, t)
    else if str_eq method (ascii "prompts/get")
    then (ok (handle_prompts_get host params id), t)
    else if str_eq method (ascii "resources/list")
    then (ok (handle_resources_list host id t), t)
    else if str_eq method (ascii "resources/read")
    then (ok (handle_resources_read host params id t), t)
    else if str_eq method (ascii "resources/subscribe")
    then returns (handle_resources_subscribe host params id t)
    else if str_eq method (ascii "resources/unsubscribe")
    then returns (handle_resources_unsubscribe params id t)
    else (ok (make_error id method_not_found (ascii "Method not found: " ++ method)), t)

unfoldable pub dispatch_method :
    {W : Type 0} → Host W → Bytes → Json → Json → Transport W → Except Json × Transport W
dispatch_method host method params id t =
    if str_eq method (ascii "initialize")
    then returns (handle_initialize host id t)
    else if str_eq method (ascii "notifications/initialized")
    then (ok null, t)
    else if str_eq method (ascii "notifications/cancelled")
    then handle_cancel host params t
    else if not t.initialized
    then (ok (make_error id invalid_request (ascii "Server not initialized")), t)
    else serve_method host method params id t

-- `Dispatch`, the method being known.
unfoldable pub dispatch :
    {W : Type 0} → Host W → Bytes → Json → Transport W → Except Json × Transport W
dispatch host method message t =
    dispatch_method host method (value_or (obj end) (find (ascii "params") message))
      (message_id message) t

abbrev is_version : Option Json → Bool
is_version (some (str s)) = str_eq s (ascii "2.0")
is_version _ = false

-- An object with the version and a method.
unfoldable pub is_request : Json → Bool
is_request message = is_version (find (ascii "jsonrpc") message) && has (ascii "method") message

-- What a line leads to: messages sent, in order, or an exception that leaves the loop.
pub data Effect : Type 0 where
  sends : List Json → Effect
  raises : Exn → Effect

-- `SendMessage` prints before it writes: what the printer throws is thrown there.
abbrev pub send : {W : Type 0} → Host W → Json → Effect
send host message = elim (host.dump message) [ ok text ↦ sends (message ∷ []) | throw e ↦ raises e ]

-- A reply is sent if there is one and the message is no notification.
abbrev pub reply_effect : {W : Type 0} → Host W → Bool → Json → Effect
reply_effect host wanted reply = if wanted && not (is_null reply) then send host reply else sends []

-- In the pool an exception is kept in the future, which nobody looks into.
abbrev pub kept : Effect → Effect
kept (sends messages) = sends messages
kept (raises e) = sends []

abbrev pub pooled : {W : Type 0} → Host W → Except Json × Transport W → Effect × Transport W
pooled host (ok reply, t) = (kept (reply_effect host true reply), t)
pooled host (throw e, t) = (sends [], t)

abbrev pub direct : {W : Type 0} → Host W → Bool → Except Json × Transport W → Effect × Transport W
direct host wanted (ok reply, t) = (reply_effect host wanted reply, t)
direct host wanted (throw e, t) = (raises e, t)

abbrev pub run_method :
    {W : Type 0} → Host W → Json → Transport W → Except Bytes → Effect × Transport W
run_method host message t (throw e) = (raises e, t)
run_method host message t (ok method) =
    if str_eq method (ascii "tools/call") && has (ascii "id") message
    then pooled host (dispatch host method message t)
    else direct host (has (ascii "id") message) (dispatch host method message t)

unfoldable pub process_message : {W : Type 0} → Host W → Json → Transport W → Effect × Transport W
process_message host message t =
    if not (is_request message)
    then (
      send host
          (make_error (message_id message) invalid_request (ascii "Invalid JSON-RPC 2.0 request")),
      t,
    )
    else run_method host message t (text_or [] (find (ascii "method") message))

-- Without the carriage return at the end.
unfoldable pub without_cr : Bytes → Bytes
without_cr [] = []
without_cr (c ∷ []) = if c == b'\r' then [] else c ∷ []
without_cr (c ∷ d ∷ s) = c ∷ without_cr (d ∷ s)

abbrev pub process_parsed : {W : Type 0} → Host W → Transport W → Option Json → Effect × Transport W
process_parsed host t none = (send host (make_error null parse_error (ascii "Parse error")), t)
process_parsed host t (some message) = process_message host message t

unfoldable pub process_line : {W : Type 0} → Host W → Bytes → Transport W → Effect × Transport W
process_line host line t =
    if is_empty line then (sends [], t) else process_parsed host t (host.parse (without_cr line))

-- The outcome of the loop: what was sent, the state, and the exception that ended it, if one did.
pub record RunOutcome (W : Type 0) : Type 0 where
  pub sent : List Json
  pub raised : Option Exn
  pub state : Transport W

abbrev pub and_then : {W : Type 0} → List Json → RunOutcome W → RunOutcome W
and_then sent o = record o { sent = sent ++ o.sent }

abbrev pub stop_watcher : {W : Type 0} → Transport W → Transport W
stop_watcher t = record t { watching = false }

abbrev pub go_on : {W : Type 0} → Effect → Transport W → RunOutcome W → RunOutcome W
go_on (raises e) t rest = record { sent = []; raised = some e; state = t }
go_on (sends messages) t rest = and_then messages rest

unfoldable pub run_loop : {W : Type 0} → Host W → List Bytes → Transport W → RunOutcome W
run_loop host [] t = record { sent = []; raised = none; state = stop_watcher t }
run_loop host (line ∷ lines) t =
    let (effect, t') = process_line host line t in go_on effect t' (run_loop host lines t')
