-- ===== src/NativeAdapter.antt =====
-- src/plugins/NativePluginAdapter.cpp and include/plugins/NativePluginAdapter.h: calls of a native
-- plugin, which is disabled after three faults in a row. What the plugin does (`Plugin`) is an
-- argument. Time-outs are not negative.
pub mod Faults
pub mod Interleaving
use tool_smith.Base.{
  ℕ, zero, suc, ◌+◌, ◌-◌, ◌*◌, Bool, true, false, List, [], ◌∷◌, ◌++◌, Bytes, ascii, decimal, leb,
  ltb, if◌then◌else◌, not, ◌&&◌, is_empty, contains, add, remove, Option, none, some,
}
use tool_smith.Base.Except.{Except, ok, throw, type_error}
use tool_smith.Json.{
  Json, null, bool, int, real, str, arr, obj, Elems, nil, cons, Fields, end, field, find,
}
use tool_smith.Registry.{ToolMetadata, native_plugin}
use tool_smith.Registry.Chain.{text_or}

abbrev pub max_faults : ℕ
max_faults = 3

abbrev pub max_concurrent_calls : ℕ
max_concurrent_calls = 8

pub record Adapter : Type 0 where
  pub tool_name : Bytes
  pub description : Bytes
  pub input_schema : Json
  pub timeout_seconds : ℕ
  pub fault_count : ℕ
  pub active_threads : ℕ
  pub shutdown_requested : Bool
  pub cancelled_requests : List Bytes

-- `IPlugin::Execute`: a value, a `std::exception` with its `what`, or something else thrown.
pub data Outcome : Type 0 where
  returned : Json → Outcome
  threw : Bytes → Outcome
  threw_unknown : Outcome

unfoldable pub create : Bytes → Bytes → Json → ℕ → Adapter
create tool_name description input_schema timeout_seconds = record {
  tool_name = tool_name;
  description = description;
  input_schema = input_schema;
  timeout_seconds = timeout_seconds;
  fault_count = 0;
  active_threads = 0;
  shutdown_requested = false;
  cancelled_requests = [];
}

unfoldable pub cancel : Bytes → Adapter → Adapter
cancel id a = record a { cancelled_requests = add id a.cancelled_requests }

unfoldable pub shutdown : Adapter → Adapter
shutdown a = record a { shutdown_requested = true }

abbrev pub is_disabled : Adapter → Bool
is_disabled a = leb max_faults a.fault_count

abbrev pub failure : Adapter → Bytes → Json
failure a what = obj (
    field (ascii "isError") (bool true) (
      field (ascii "content")
        (arr (
          cons
            (obj (
              field (ascii "type") (str (ascii "text")) (
                field (ascii "text")
                  (str (ascii "Plugin tool '" ++ (a.tool_name ++ (b'\'' ∷ what)))) end)))
            nil))
        end))

-- `request.value("_requestId", "")`, which throws where the request is no object.
unfoldable pub request_id_of : Json → Except Bytes
unfolding text_or
request_id_of request = elim request [
  | obj fs ↦ text_or [] (find (ascii "_requestId") (obj fs))
  | _ ↦ throw type_error
]

-- Why a call is refused before it begins.
unfoldable pub refused : Adapter → Option Json
refused a =
    if a.shutdown_requested
    then some (failure a (ascii " is shutting down"))
    else if is_disabled a
    then some (
        failure a
          (ascii " is disabled after " ++ (decimal max_faults ++ ascii " consecutive faults")))
    else if leb max_concurrent_calls a.active_threads
    then some (
        failure a
          (ascii " has too many outstanding calls (" ++ (decimal a.active_threads ++ ascii ")")))
    else none

unfoldable pub enter : Adapter → Adapter
enter a = record a { active_threads = a.active_threads + 1 }

-- Each call leaves once, after it has entered, so that the count is not 0.
abbrev pub leave : Adapter → Adapter
leave a = record a { active_threads = a.active_threads - 1 }

abbrev fault : Adapter → Adapter
fault a = record a { fault_count = a.fault_count + 1 }

-- A call that the plugin returned from: cancelled, too late, or good.
unfoldable pub conclude : Bytes → Json → ℕ → Adapter → Json × Adapter
conclude id executed elapsed a =
    if not (is_empty id) && contains a.cancelled_requests id
    then (
      failure a (ascii " was cancelled"),
      record a { cancelled_requests = remove id a.cancelled_requests },
    )
    else if ltb (a.timeout_seconds * 1000000000) elapsed
    then (
      failure a (ascii " timed out after " ++ (decimal a.timeout_seconds ++ ascii "s")),
      fault a,
    )
    else (executed, record a { fault_count = 0 })

-- What becomes of a call that is no longer counted.
unfoldable pub settle : Bytes → Outcome → ℕ → Adapter → Json × Adapter
unfolding conclude
settle id (threw what) elapsed a = (failure a (ascii " threw: " ++ what), fault a)
settle id threw_unknown elapsed a = (failure a (ascii " threw an unknown exception"), fault a)
settle id (returned executed) elapsed a = conclude id executed elapsed a

-- What happens when the plugin is back.
unfoldable pub finish : Bytes → Outcome → ℕ → Adapter → Json × Adapter
unfolding settle
finish id outcome elapsed a = settle id outcome elapsed (leave a)

-- A plugin: what `Execute` gives for a request, in how many nanoseconds, and what becomes of the plugin's
-- own state.
abbrev pub Plugin {ℓ} : Type ℓ → Type ℓ
Plugin P = Json → P → Outcome × ℕ × P

-- One call with no other in between.
unfoldable pub execute {ℓ} :
    {P : Type ℓ} → Plugin P → Json → Adapter × P → Except Json × (Adapter × P)
unfolding request_id_of refused enter finish
execute plugin request (a, p) = elim (request_id_of request) [
  | throw e ↦ (throw e, (a, p))
  | ok id ↦ elim (refused a) [
    | some why ↦ (ok why, (a, p))
    | none ↦
        let (outcome, elapsed, p') = plugin request p in
        let (result, a') = finish id outcome elapsed (enter a) in (ok result, (a', p'))
  ]
]

unfoldable pub get_metadata : Adapter → ToolMetadata
get_metadata a = record {
  name = a.tool_name;
  description = a.description;
  input_schema = a.input_schema;
  default_model = [];
  default_parameters = null;
  source = native_plugin;
  hidden = false;
}
