-- ===== src/Transport/Calls.antt =====
-- tools/list, tools/call, tools/call_batch and notifications/cancelled.
pub mod Cancelling
pub mod InFlight
use tool_smith.Base.{
  ℕ, Bool, true, false, not, ◌&&◌, Option, none, some, List, [], ◌∷◌, ◌++◌, Bytes, ascii, str_eq,
  is_empty, map, lookup, insert, erase, if◌then◌else◌,
}
use tool_smith.Base.Except.{Except, ok, throw, type_error, Exn, ◌>>=◌}
use tool_smith.Json.{
  Json, null, bool, int, real, str, arr, obj, Elems, nil, cons, Fields, end, field, find, has,
  is_object, is_empty_json, elems, string_of, array_in,
}
use tool_smith.Registry.{Registry, Strategies, ToolMetadata, resolve}
use tool_smith.Registry.Listing.{list_tool_metadata}
use tool_smith.Registry.Chain.{text_or, value_or, execute_with_chaining}
use tool_smith.CoreTools.{bool_or}
use tool_smith.Transport.{
  Host, Transport, make_response, make_error, invalid_params, internal_error, member, array_of,
  text_items, set_key,
}

abbrev tool_row : ToolMetadata → Json
tool_row meta = obj (
    field (ascii "name") (str meta.name) (
      field (ascii "description") (str meta.description)
        (field (ascii "inputSchema") meta.input_schema end)))

unfoldable pub handle_tools_list : {W : Type 0} → Host W → Json → Transport W → Json
handle_tools_list host id t = make_response id (
    member (ascii "tools")
      (arr (array_of (map tool_row (list_tool_metadata host.strategies t.tools.0 t.tools.1)))))

-- The defaults of the tool, where the caller gave nothing else.
unfoldable pub with_default_model : ToolMetadata → Json → Except Json
with_default_model meta arguments =
    if not (is_empty meta.default_model) && not (has (ascii "model") arguments)
    then set_key (ascii "model") (str meta.default_model) arguments
    else ok arguments

unfoldable pub with_default_parameters : ToolMetadata → Json → Except Json
with_default_parameters meta arguments =
    if not (is_empty_json meta.default_parameters) && not (has (ascii "parameters") arguments)
    then set_key (ascii "parameters") meta.default_parameters arguments
    else ok arguments

unfoldable pub with_defaults : ToolMetadata → Json → Except Json
with_defaults meta arguments = with_default_model meta arguments >>= with_default_parameters meta

-- The key of a call among those in flight.
unfoldable pub request_key : {W : Type 0} → Host W → Json → Except Bytes
request_key host (str s) = ok s
request_key host id = host.dump id

abbrev pub tool_request : Bytes → Json → Json
tool_request tool arguments =
    obj (field (ascii "command") (str tool) (field (ascii "payload") arguments end))

-- `result.value("isError", false) || result.value("status", "ok") == "error"`.
unfoldable pub is_error : Json → Except Bool
is_error (obj fs) = do
  flagged ← bool_or false (find (ascii "isError") (obj fs))
  status ← text_or (ascii "ok") (if flagged then none else find (ascii "status") (obj fs))
  ok (if flagged then true else str_eq status (ascii "error"))
is_error _ = throw type_error

unfoldable pub content_of : {W : Type 0} → Host W → Json → Except Json
content_of host result = elim (find (ascii "content") result) [
  | some (str s) ↦ ok (text_items s)
  | some (arr items) ↦ ok (arr items)
  | _ ↦ host.dump result >>= (λ s. ok (text_items s))
]

unfoldable pub call_result : {W : Type 0} → Host W → Json → Except Json
call_result host result = do
  failed ← is_error result
  content ← content_of host result
  ok (obj (field (ascii "content") content (field (ascii "isError") (bool failed) end)))

-- The reply, from what the tool gave or from what the result came to.
abbrev pub reply_with : {W : Type 0} → Host W → Json → Except Json → Json
reply_with host id (ok result) = make_response id result
reply_with host id (throw e) = make_error id internal_error (host.what e)

-- A call that is started, in flight under its key, and one that has ended.
abbrev pub flying : {W : Type 0} → Bytes → Bytes → Transport W → Transport W
flying key tool t = record t { in_flight = insert key tool t.in_flight }

abbrev pub landed : {W : Type 0} → Bytes → Transport W → Transport W
landed key t = record t { in_flight = erase key t.in_flight }

-- The call is in flight while the tool runs.
unfoldable pub run_call :
    {W : Type 0} → Host W → Bytes → Bytes → Json → Json → Transport W → Json × Transport W
run_call host tool key arguments id t =
    let started = flying key tool t in
    let (outcome, tools') =
      execute_with_chaining host.strategies tool (tool_request tool arguments) started.tools in
    let ended = record (landed key started) { tools = tools' } in
    (reply_with host id (outcome >>= call_result host), ended)

-- The arguments that the tool gets, and the key: what throws here throws out of the handler.
unfoldable pub prepare : {W : Type 0} → Host W → ToolMetadata → Json → Json → Except (Bytes × Json)
prepare host meta id arguments = do
  filled ← with_defaults meta arguments
  key ← request_key host id
  keyed ← set_key (ascii "_requestId") (str key) filled
  ok (key, keyed)

abbrev pub run_prepared :
    {W : Type 0}
    → Host W
    → Bytes
    → Json
    → Transport W
    → Except (Bytes × Json)
    → Except Json × Transport W
run_prepared host tool id t (throw e) = (throw e, t)
run_prepared host tool id t (ok (key, arguments)) =
    let (reply, t') = run_call host tool key arguments id t in (ok reply, t')

abbrev pub call_resolved :
    {W : Type 0} → Host W → Bytes → Json → Json → Transport W → Option ℕ → Except Json × Transport W
call_resolved host tool arguments id t none =
    (ok (make_error id invalid_params (ascii "Unknown tool: " ++ tool)), t)
call_resolved host tool arguments id t (some command) =
    run_prepared host tool id t
      (prepare host (host.strategies.metadata command t.tools.1) id arguments)

abbrev pub missing_name : Json → Json
missing_name id = make_error id invalid_params (ascii "Missing required parameter: name")

abbrev pub call_named :
    {W : Type 0} → Host W → Json → Json → Transport W → Option Bytes → Except Json × Transport W
call_named host params id t none = (ok (missing_name id), t)
call_named host params id t (some tool) =
    call_resolved host tool (value_or (obj end) (find (ascii "arguments") params)) id t
      (resolve t.tools.0 tool)

unfoldable pub handle_tools_call :
    {W : Type 0} → Host W → Json → Json → Transport W → Except Json × Transport W
handle_tools_call host params id t =
    call_named host params id t (string_of (find (ascii "name") params))

-- A call of a batch after the first phase: a name, and an error or the command with its request.
pub data PendingCall : Type 0 where
  wrong : Bytes → Bytes → PendingCall
  pending : Bytes → ℕ → Json → PendingCall

unfoldable pub launch_one : {W : Type 0} → Host W → Registry × W → Json → Except PendingCall
launch_one host (r, w) call = elim (find (ascii "name") call) [
  | some (str tool) ↦ elim (resolve r tool) [
    | none ↦ ok (wrong tool (ascii "Unknown tool: " ++ tool))
    | some command ↦
        with_defaults (host.strategies.metadata command w)
          (value_or (obj end) (find (ascii "arguments") call))
        >>= (λ arguments. ok (pending tool command (tool_request tool arguments)))
  ]
  | _ ↦ ok (wrong (ascii "<unknown>") (ascii "Each call must have a string 'name' field"))
]

unfoldable pub launch_all :
    {W : Type 0} → Host W → Registry × W → List Json → Except (List PendingCall)
launch_all host s [] = ok []
launch_all host s (c ∷ cs) = do p ← launch_one host s c; ps ← launch_all host s cs; ok (p ∷ ps)

abbrev batch_row : Bytes → Bool → Bytes → Json
batch_row name failed text = obj (
    field (ascii "name") (str name)
      (field (ascii "isError") (bool failed) (field (ascii "content") (text_items text) end)))

unfoldable pub status_error : Json → Except Bool
status_error (obj fs) = do
  status ← text_or (ascii "ok") (find (ascii "status") (obj fs))
  ok (str_eq status (ascii "error"))
status_error _ = throw type_error

-- What is shown of one result.
unfoldable pub batch_result : {W : Type 0} → Host W → Bytes → Json → Except Json
batch_result host name result = do
  failed ← status_error result
  text ← host.dump result
  ok (batch_row name failed text)

abbrev pub row_or_error : {W : Type 0} → Host W → Bytes → Except Json → Json
row_or_error host name (ok row) = row
row_or_error host name (throw e) = batch_row name true (host.what e)

unfoldable pub collect_one :
    {W : Type 0} → Host W → PendingCall → Registry × W → Json × (Registry × W)
collect_one host (wrong name message) s = (batch_row name true message, s)
collect_one host (pending name command request) s =
    let (outcome, s') = host.strategies.execute command request s in
    (row_or_error host name (outcome >>= batch_result host name), s')

-- The second phase: the results in the order of the calls.
unfoldable pub collect_all :
    {W : Type 0} → Host W → List PendingCall → Registry × W → List Json × (Registry × W)
collect_all host [] s = ([], s)
collect_all host (p ∷ ps) s =
    let (row, s1) = collect_one host p s in
    let (rows, s2) = collect_all host ps s1 in (row ∷ rows, s2)

abbrev pub batch_reply :
    {W : Type 0}
    → Host W
    → Json
    → Transport W
    → Except (List PendingCall)
    → Except Json × Transport W
batch_reply host id t (throw e) = (throw e, t)
batch_reply host id t (ok calls) =
    let (rows, tools') = collect_all host calls t.tools in
    (
      ok (make_response id (member (ascii "results") (arr (array_of rows)))),
      record t { tools = tools' },
    )

abbrev pub batch_given :
    {W : Type 0} → Host W → Json → Transport W → Option Elems → Except Json × Transport W
batch_given host id t none =
    (ok (make_error id invalid_params (ascii "Missing required parameter: calls (array)")), t)
batch_given host id t (some calls) = batch_reply host id t (launch_all host t.tools (elems calls))

unfoldable pub handle_tools_call_batch :
    {W : Type 0} → Host W → Json → Json → Transport W → Except Json × Transport W
handle_tools_call_batch host params id t =
    batch_given host id t (array_in (find (ascii "calls") params))

abbrev pub tell : {W : Type 0} → Host W → Bytes → Transport W → Option ℕ → Transport W
tell host key t none = t
tell host key t (some command) = record t {
  tools = (t.tools.0, host.cancel_command command key t.tools.1);
}

abbrev pub cancel_tool : {W : Type 0} → Host W → Bytes → Option Bytes → Transport W → Transport W
cancel_tool host key none t = t
cancel_tool host key (some tool) t = tell host key t (resolve t.tools.0 tool)

abbrev pub cancel_key :
    {W : Type 0} → Host W → Transport W → Except Bytes → Except Json × Transport W
cancel_key host t (throw e) = (throw e, t)
cancel_key host t (ok key) = (ok null, cancel_tool host key (lookup key t.in_flight) t)

abbrev pub cancel_given :
    {W : Type 0} → Host W → Transport W → Option Json → Except Json × Transport W
cancel_given host t none = (ok null, t)
cancel_given host t (some id) = cancel_key host t (request_key host id)

-- Only the tool of a call in flight is told. There is no reply: null.
unfoldable pub handle_cancel :
    {W : Type 0} → Host W → Json → Transport W → Except Json × Transport W
handle_cancel host params t = cancel_given host t (find (ascii "requestId") params)
