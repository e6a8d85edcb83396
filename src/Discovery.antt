-- ===== src/Discovery.antt =====
-- src/discovery/McpServerRegistry.cpp and include/discovery/McpServerRegistry.h and McpServerEntry.h:
-- the servers that requests can be forwarded to. The conversion of numbers (`get<int>`) and the HTTP
-- client are parameters; opening and parsing the file is not modelled.
pub mod Best
use tool_smith.Base.{
  ℕ, ◌+◌, Bool, true, false, not, ◌&&◌, ◌||◌, List, [], ◌∷◌, ◌++◌, ◌==◌, leb, if◌then◌else◌, Option,
  none, some, Bytes, ascii, str_eq, is_empty, all, contains, keep, map, take, drop, length,
}
use tool_smith.Base.Int.{ℤ, pos, lt_int}
use tool_smith.Base.Except.{Except, ok, throw, type_error, runtime_error, invalid_argument, ◌>>=◌}
use tool_smith.Json.{
  Json, null, bool, int, real, str, arr, obj, Elems, nil, cons, Fields, end, field, find, is_object,
}
use tool_smith.Registry.Chain.{text_or}

pub record McpServerEntry : Type 0 where
  pub name : Bytes
  pub url : Bytes
  pub capabilities : List Bytes
  pub priority : ℤ
  pub timeout_seconds : ℤ

abbrev is_digit : ℕ → Bool
is_digit c = leb b'0' c && leb c b'9'

abbrev is_host : ℕ → Bool
is_host c =
    (leb b'a' c && leb c b'z') || (leb b'A' c && leb c b'Z') || is_digit c || c == b'.' || c == b'-'

unfoldable pub skip_while : (ℕ → Bool) → Bytes → Bytes
skip_while p [] = []
skip_while p (c ∷ s) = if p c then skip_while p s else c ∷ s

-- `(/.*)?$`; a dot stands for any byte but those that end a line.
abbrev is_path : Bytes → Bool
is_path [] = true
is_path (c ∷ s) = c == b'/' && all (λ d. not (d == b'\n' || d == b'\r')) s

-- `(:\d+)?` and the path.
abbrev is_port_and_path : Bytes → Bool
is_port_and_path [] = true
is_port_and_path (c ∷ s) =
    if c == b':' then first_digit s && is_path (skip_while is_digit s) else is_path (c ∷ s)
  where
    first_digit : Bytes → Bool
    first_digit [] = false
    first_digit (d ∷ _) = is_digit d

abbrev is_after_scheme : Bytes → Bool
is_after_scheme [] = false
is_after_scheme (c ∷ s) = is_host c && is_port_and_path (skip_while is_host s)

abbrev has_prefix : Bytes → Bytes → Bool
has_prefix p s = str_eq (take (length p) s) p

-- The regular expression `^https?://[a-zA-Z0-9.\-]+(:\d+)?(/.*)?$`.
unfoldable pub is_valid_url : Bytes → Bool
unfolding skip_while
is_valid_url url =
    if has_prefix (ascii "http://") url
    then is_after_scheme (drop 7 url)
    else has_prefix (ascii "https://") url && is_after_scheme (drop 8 url)

-- `cap.get<std::string>()` of each.
unfoldable pub texts_of : Elems → Except (List Bytes)
texts_of nil = ok []
texts_of (cons (str s) js) = do rest ← texts_of js; ok (s ∷ rest)
texts_of (cons _ js) = throw type_error

abbrev int_or : (Json → Except ℤ) → ℤ → Option Json → Except ℤ
int_or get_int default o = elim o [ none ↦ ok default | some j ↦ get_int j ]

abbrev capabilities_of : Option Json → Except (List Bytes)
capabilities_of (some (arr js)) = texts_of js
capabilities_of _ = ok []

abbrev entry_of : Bytes → Bytes → ℤ → ℤ → List Bytes → McpServerEntry
entry_of name url priority timeout_seconds capabilities = record {
  name = name;
  url = url;
  capabilities = capabilities;
  priority = priority;
  timeout_seconds = timeout_seconds;
}

-- The capabilities are read only where the URL is valid.
abbrev complete : Json → Bytes → Bytes → ℤ → ℤ → Except (Option McpServerEntry)
complete s name url priority timeout_seconds =
    if not (is_valid_url url)
    then ok none
    else capabilities_of (find (ascii "capabilities") s) >>= λ capabilities.
        ok (some (entry_of name url priority timeout_seconds capabilities))

-- One entry of the file; `none` where its URL is not valid.
unfoldable pub load_entry : (Json → Except ℤ) → Json → Except (Option McpServerEntry)
unfolding text_or texts_of is_valid_url
load_entry get_int s =
    let read = do
      name ← text_or [] (find (ascii "name") s)
      url ← text_or [] (find (ascii "url") s)
      priority ← int_or get_int (pos 1) (find (ascii "priority") s)
      timeout_seconds ← int_or get_int (pos 30) (find (ascii "timeout_seconds") s)
      complete s name url priority timeout_seconds
    in if not (is_object s) then throw type_error else read

abbrev with_entry : Option McpServerEntry → List McpServerEntry → List McpServerEntry
with_entry none es = es
with_entry (some e) es = e ∷ es

unfoldable pub load_entries : (Json → Except ℤ) → Elems → Except (List McpServerEntry)
unfolding load_entry
load_entries get_int nil = ok []
load_entries get_int (cons s js) = do
  entry ← load_entry get_int s
  rest ← load_entries get_int js
  ok (with_entry entry rest)

-- `LoadFromFile`, from the parsed file on.
unfoldable pub load_servers : (Json → Except ℤ) → Json → Except (List McpServerEntry)
unfolding load_entries
load_servers get_int config = elim (find (ascii "servers") config) [
  | some (arr js) ↦ load_entries get_int js
  | _ ↦ throw (runtime_error (ascii "Invalid mcp_servers.json: missing 'servers' array"))
]

unfoldable pub add_server : McpServerEntry → List McpServerEntry → Except (List McpServerEntry)
add_server entry servers =
    if not (is_valid_url entry.url)
    then throw (invalid_argument (ascii "Invalid server URL: " ++ entry.url))
    else ok (servers ++ entry ∷ [])

-- `std::sort` by priority; servers of one priority keep their order.
unfoldable pub insert_server : McpServerEntry → List McpServerEntry → List McpServerEntry
insert_server e [] = e ∷ []
insert_server e (k ∷ ks) =
    if lt_int k.priority e.priority then k ∷ insert_server e ks else e ∷ k ∷ ks

unfoldable pub sort_servers : List McpServerEntry → List McpServerEntry
unfolding insert_server
sort_servers [] = []
sort_servers (e ∷ es) = insert_server e (sort_servers es)

abbrev pub offers : Bytes → McpServerEntry → Bool
offers capability e = contains e.capabilities capability

unfoldable pub get_servers_for_capability : Bytes → List McpServerEntry → List McpServerEntry
get_servers_for_capability capability servers = sort_servers (keep (offers capability) servers)

unfoldable pub get_best_server_for : Bytes → List McpServerEntry → Option McpServerEntry
get_best_server_for capability servers = elim (get_servers_for_capability capability servers) [
  | [] ↦ none
  | e ∷ es ↦ some e
]

-- `Get` of the client: a status code, or none where it throws.
unfoldable pub health_check : (Bytes → Option ℕ) → McpServerEntry → Bool
health_check get server = elim (get (server.url ++ ascii "/health")) [
  | none ↦ false
  | some status ↦ status == 200
]

abbrev texts_json : List Bytes → Elems
texts_json [] = nil
texts_json (t ∷ ts) = cons (str t) (texts_json ts)

unfoldable pub servers_json : List McpServerEntry → Elems
servers_json [] = nil
servers_json (s ∷ rest) =
    cons
      (obj (
        field (ascii "name") (str s.name) (
          field (ascii "url") (str s.url) (
            field (ascii "capabilities") (arr (texts_json s.capabilities))
              (field (ascii "priority") (int s.priority) end)))))
      (servers_json rest)
