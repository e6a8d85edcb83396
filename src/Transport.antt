-- ===== src/Transport.antt =====
-- src/server/StdioTransport.cpp and include/server/StdioTransport.h: JSON-RPC messages, one a line, and
-- what is done for each method. This file has the state, what the transport is built from, and the form
-- of the replies.
pub mod Calls
pub mod Prompts
pub mod Resources
pub mod Serve
use tool_smith.Base.Int.{ℤ, pos, negsuc}
use tool_smith.Base.{
  ℕ, Bool, true, false, Option, none, some, List, [], ◌∷◌, Bytes, ascii, Dict, if◌then◌else◌,
}
use tool_smith.Base.Except.{Except, ok, throw, type_error, Exn}
use tool_smith.Base.FilePath.{FilePath}
use tool_smith.Json.{
  Json, null, bool, int, real, str, arr, obj, Elems, nil, cons, Fields, end, field, find, set_field,
  is_null,
}
use tool_smith.Registry.{Registry, Strategies}
use tool_smith.Registry.Chain.{value_or}
use tool_smith.Jail.{Disk}

-- The skill engine, as far as the transport calls it: a skill is known by its address.
pub record Engine : Type 0 where
  pub list_skills_json : List Json
  pub resolve_skill : Bytes → Option ℕ
  pub render_prompt : ℕ → Json → Except Bytes

-- The members of an agent skill that the transport shows or opens.
pub record AgentSkill : Type 0 where
  pub name : Bytes
  pub description : Bytes
  pub root : FilePath

-- What the transport uses of the result of `LoadAgentSkillBody`: the body, or an error text that is not
-- empty.
pub record SkillBody : Type 0 where
  pub body : Bytes
  pub error : Bytes

-- The agent skills of the core runtime.
pub record Skills : Type 0 where
  pub skills : List AgentSkill
  pub load_body : Bytes → SkillBody

-- What a directory walk meets: a directory, a file with its path below the root, or a file for which
-- that path cannot be found.
pub data Entry : Type 0 where
  directory : Entry
  file : Bytes → Entry
  unreachable : Entry

-- The file system: `path::lexically_normal`, the walk below a directory, the contents and the time of the
-- last change of a file.
pub record Volume : Type 0 where
  pub disk : Disk
  pub lexically_normal : FilePath → FilePath
  pub walk : FilePath → List Entry
  pub is_regular_file : FilePath → Bool
  pub read_all : FilePath → Option Bytes
  pub last_write_time : FilePath → Option ℕ

-- What the transport is built from: `parse` fails where `nlohmann::json::parse` throws, `dump` throws on
-- text that is not UTF-8, and `what` is the text of an exception.
pub record Host (W : Type 0) : Type 0 where
  pub strategies : Strategies W
  pub cancel_command : ℕ → Bytes → W → W
  pub parse : Bytes → Option Json
  pub dump : Json → Except Bytes
  pub what : Exn → Bytes
  pub server_name : Bytes
  pub server_version : Bytes
  pub engine : Option Engine
  pub skills : Option Skills
  pub volume : Volume
  pub resource_root : Bytes

pub record Transport (W : Type 0) : Type 0 where
  pub initialized : Bool
  pub in_flight : Dict Bytes
  pub subscribed_uris : List Bytes
  pub subscribed_mtimes : Dict ℕ
  pub watching : Bool
  pub tools : Registry × W

abbrev pub invalid_request : ℤ
invalid_request = negsuc 32599

abbrev pub parse_error : ℤ
parse_error = negsuc 32699

abbrev pub method_not_found : ℤ
method_not_found = negsuc 32600

abbrev pub invalid_params : ℤ
invalid_params = negsuc 32601

abbrev pub internal_error : ℤ
internal_error = negsuc 32602

unfoldable pub make_response : Json → Json → Json
make_response id result = obj (
    field (ascii "jsonrpc") (str (ascii "2.0"))
      (field (ascii "id") id (field (ascii "result") result end)))

abbrev pub error_object : ℤ → Bytes → Json → Json
error_object code message extra = obj (
    field (ascii "code") (int code) (
      field (ascii "message") (str message)
        (if is_null extra then end else field (ascii "data") extra end)))

unfoldable pub make_error_with : Json → ℤ → Bytes → Json → Json
make_error_with id code message extra = obj (
    field (ascii "jsonrpc") (str (ascii "2.0"))
      (field (ascii "id") id (field (ascii "error") (error_object code message extra) end)))

abbrev pub make_error : Json → ℤ → Bytes → Json
make_error id code message = make_error_with id code message null

-- `message["id"]`, or null.
abbrev pub message_id : Json → Json
message_id message = value_or null (find (ascii "id") message)

abbrev pub member : Bytes → Json → Json
member k j = obj (field k j end)

abbrev pub array_of : List Json → Elems
array_of [] = nil
array_of (j ∷ js) = cons j (array_of js)

-- `[{"type": "text", "text": …}]`.
abbrev pub text_items : Bytes → Json
text_items s =
    arr (
      cons (obj (field (ascii "type") (str (ascii "text")) (field (ascii "text") (str s) end))) nil)

-- `j[k] = v`: null becomes an object; anything else that is no object throws.
unfoldable pub set_key : Bytes → Json → Json → Except Json
set_key k v null = ok (obj (field k v end))
set_key k v (obj fs) = ok (obj (set_field k v fs))
set_key k v _ = throw type_error
