-- ===== src/Config.antt =====
-- src/core/Config.cpp and include/core/Config.h: a configuration is a JSON value. The environment, the
-- conversions of numbers (`get<int>`, `get<size_t>`, `std::stoi`) and the number of processors are
-- parameters; opening and parsing a file is not modelled.
pub mod Lists
pub mod Bounds
use tool_smith.Base.{
  ℕ, Bool, true, false, not, ◌&&◌, ◌||◌, List, [], ◌∷◌, ◌++◌, ◌==◌, if◌then◌else◌, Option, none,
  some, Bytes, ascii, is_empty, min, ltb,
}
use tool_smith.Base.Int.{ℤ, pos}
use tool_smith.Base.Except.{Except, ok, throw, type_error, ◌>>=◌}
use tool_smith.Json.{
  Json, null, bool, int, real, str, arr, obj, Elems, nil, cons, elems, Fields, end, field, find,
  find_field, set_field,
}

abbrev pub is_blank : ℕ → Bool
is_blank c = c == 32 || c == b'\t'

unfoldable pub drop_blanks : Bytes → Bytes
drop_blanks [] = []
drop_blanks (c ∷ s) = if is_blank c then drop_blanks s else c ∷ s

unfoldable pub drop_last_blanks : Bytes → Bytes
drop_last_blanks [] = []
drop_last_blanks (c ∷ s) = elim (drop_last_blanks s) [
  | [] ↦ if is_blank c then [] else c ∷ []
  | d ∷ t ↦ c ∷ d ∷ t
]

-- `flush`: what stands from the first byte that is not blank to the last, if there is one.
unfoldable pub flushed : Bytes → List Bytes
unfolding drop_blanks drop_last_blanks
flushed cur =
    let item = drop_last_blanks (drop_blanks cur) in if is_empty item then [] else item ∷ []

unfoldable pub split_from : Bytes → Bytes → List Bytes
unfolding flushed
split_from cur [] = if is_empty cur then [] else flushed cur
split_from cur (c ∷ s) =
    let next = flushed cur ++ split_from [] s in
    let same = split_from (cur ++ c ∷ []) s in if c == b',' then next else same

unfoldable pub split_csv : Bytes → List Bytes
unfolding split_from
split_csv s = split_from [] s

-- `contains(a)`, `[a].contains(b)`, `[a][b]`.
abbrev pub find_in : Bytes → Bytes → Json → Option Json
find_in a b config = elim (find a config) [ none ↦ none | some section ↦ find b section ]

abbrev strings : Elems → List Bytes
strings nil = []
strings (cons (str s) js) = s ∷ strings js
strings (cons _ js) = strings js

unfoldable pub json_string_list : Bytes → Bytes → Json → List Bytes
json_string_list a b config = elim (find_in a b config) [
  | none ↦ []
  | some j ↦ elim j [ arr js ↦ strings js | _ ↦ [] ]
]

abbrev string_of : Json → Except Bytes
string_of (str s) = ok s
string_of _ = throw type_error

abbrev bool_of : Json → Except Bool
bool_of (bool b) = ok b
bool_of _ = throw type_error

abbrev pub get_or {ℓ} : {A : Type ℓ} → (Json → Except A) → A → Bytes → Bytes → Json → Except A
get_or convert default a b config = elim (find_in a b config) [
  | none ↦ ok default
  | some j ↦ convert j
]

unfoldable pub get_server_port : (Json → Except ℤ) → Json → Except ℤ
get_server_port get_int = get_or get_int (pos 9001) (ascii "server") (ascii "port")

unfoldable pub get_lite_llm_base_url : Json → Except Bytes
get_lite_llm_base_url =
    get_or string_of (ascii "http://localhost:4000") (ascii "litellm") (ascii "base_url")

unfoldable pub get_default_model : Json → Except Bytes
get_default_model =
    get_or string_of (ascii "gpt-3.5-turbo") (ascii "litellm") (ascii "default_model")

abbrev pub between_1_and_8 : ℕ → ℕ
between_1_and_8 n = let m = if n == 0 then 1 else n in if ltb 8 m then 8 else m

unfoldable pub get_thread_pool_size : (Json → Except ℕ) → ℕ → Json → Except ℕ
get_thread_pool_size get_size processors config = do
  n ← get_or get_size processors (ascii "thread_pool") (ascii "size") config
  ok (between_1_and_8 n)

unfoldable pub get_max_request_body_size : (Json → Except ℕ) → Json → Except ℕ
get_max_request_body_size get_size =
    get_or get_size 1048576 (ascii "server") (ascii "max_request_body_bytes")

unfoldable pub get_rate_limit_requests_per_minute : (Json → Except ℕ) → Json → Except ℕ
get_rate_limit_requests_per_minute get_size =
    get_or get_size 60 (ascii "rate_limit") (ascii "requests_per_minute")

unfoldable pub is_auth_enabled : Json → Except Bool
is_auth_enabled = get_or bool_of false (ascii "auth") (ascii "enabled")

unfoldable pub get_auth_api_key : Json → Except Bytes
get_auth_api_key = get_or string_of [] (ascii "auth") (ascii "api_key")

unfoldable pub get_skills_directory : Json → Except Bytes
get_skills_directory = get_or string_of (ascii "skills") (ascii "skills") (ascii "directory")

unfoldable pub get_plugins_directory : Json → Except Bytes
get_plugins_directory = get_or string_of (ascii "plugins") (ascii "plugins") (ascii "directory")

unfoldable pub get_mcp_servers_config_path : Json → Except Bytes
get_mcp_servers_config_path =
    get_or string_of (ascii "config/mcp_servers.json") (ascii "discovery") (ascii "servers_config")

-- With the default also where the member is no string.
abbrev string_or : Bytes → Bytes → Bytes → Json → Bytes
string_or default a b config = elim (find_in a b config) [
  | none ↦ default
  | some j ↦ elim j [ str s ↦ s | _ ↦ default ]
]

unfoldable pub get_tools_profile : Json → Bytes
get_tools_profile = string_or (ascii "auto") (ascii "tools") (ascii "profile")

unfoldable pub get_workspace_root : Json → Bytes
get_workspace_root = string_or (ascii "auto") (ascii "workspace") (ascii "root")

unfoldable pub get_tools_enable : Json → List Bytes
get_tools_enable = json_string_list (ascii "tools") (ascii "enable")

unfoldable pub get_tools_disable : Json → List Bytes
get_tools_disable = json_string_list (ascii "tools") (ascii "disable")

unfoldable pub get_tools_pin : Json → List Bytes
get_tools_pin = json_string_list (ascii "tools") (ascii "pin")

unfoldable pub get_workspace_allow : Json → List Bytes
get_workspace_allow = json_string_list (ascii "workspace") (ascii "allow")

unfoldable pub is_chaining_enabled : Json → Except Bool
is_chaining_enabled = get_or bool_of false (ascii "tools") (ascii "chaining")

unfoldable pub allow_command_skills : Json → Except Bool
allow_command_skills = get_or bool_of false (ascii "tools") (ascii "allow_command_skills")

-- `data[a][b] = v`, where `data` is an object, and its member `a`, if it is there, is one.
abbrev set_member : Bytes → Json → Option Json → Json
set_member b v (some (obj fs)) = obj (set_field b v fs)
set_member b v _ = obj (field b v end)

unfoldable pub set_in : Bytes → Bytes → Json → Json → Json
set_in a b v (obj fs) = obj (set_field a (set_member b v (find_field a fs)) fs)
set_in a b v _ = obj (field a (obj (field b v end)) end)

abbrev pub text_items : List Bytes → Elems
text_items [] = nil
text_items (t ∷ ts) = cons (str t) (text_items ts)

-- One variable of the environment; an empty value is as good as none.
unfoldable pub set_unless_empty : Bytes → Bytes → Bytes → Json → Json → Json
set_unless_empty value a b v config = if is_empty value then config else set_in a b v config

unfoldable pub with_port : (Bytes → Except ℤ) → Bytes → Except Json
with_port stoi port =
    if is_empty port
    then ok (obj end)
    else do n ← stoi port; ok (set_in (ascii "server") (ascii "port") (int n) (obj end))

-- What follows the port, up to the key, and from there on.
unfoldable pub with_model : (Bytes → Bytes) → Json → Json
with_model env config =
    let url = env (ascii "MCP_LITELLM_URL") in
    let model = env (ascii "MCP_DEFAULT_MODEL") in
    set_unless_empty model (ascii "litellm") (ascii "default_model") (str model)
      (set_unless_empty url (ascii "litellm") (ascii "base_url") (str url) config)

unfoldable pub with_key : Bytes → Json → Json
with_key key config =
    set_unless_empty key (ascii "auth") (ascii "api_key") (str key)
      (set_unless_empty key (ascii "auth") (ascii "enabled") (bool true) config)

unfoldable pub with_tools : (Bytes → Bytes) → Json → Json
with_tools env config =
    let profile = env (ascii "TOOLSMITH_PROFILE") in
    let tools = env (ascii "TOOLSMITH_TOOLS") in
    let workspace = env (ascii "TOOLSMITH_WORKSPACE") in
    set_unless_empty workspace (ascii "workspace") (ascii "root") (str workspace) (
      set_unless_empty tools (ascii "tools") (ascii "pin") (arr (text_items (split_csv tools)))
        (set_unless_empty profile (ascii "tools") (ascii "profile") (str profile) config))

unfoldable pub load_from_env : (Bytes → Except ℤ) → (Bytes → Bytes) → Except Json
load_from_env stoi env = do
  config ← with_port stoi (env (ascii "MCP_SERVER_PORT"))
  ok (with_tools env (with_key (env (ascii "MCP_AUTH_API_KEY")) (with_model env config)))
