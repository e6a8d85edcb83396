-- ===== src/Transport/Resources.antt =====
-- resources/list, resources/read, resources/subscribe and resources/unsubscribe.
pub mod Paths
pub mod Watcher
use tool_smith.Base.{
  ℕ, zero, suc, ◌-◌, Bool, true, false, not, ◌&&◌, ◌||◌, Option, none, some, List, [], ◌∷◌, ◌++◌,
  Bytes, ascii, str_eq, is_empty, any, map, take, drop, insert, erase, contains, add, remove,
  if◌then◌else◌, ◌==◌,
}
use tool_smith.Base.Int.{ℤ}
use tool_smith.Base.FilePath.{FilePath, to_path, join, lexically_relative}
use tool_smith.Json.{Json, str, arr, obj, nil, cons, Fields, end, field, find, string_of}
use tool_smith.Registry.{is_advertised}
use tool_smith.CoreTools.{cap_head}
use tool_smith.CoreTools.Run.{starts_with}
use tool_smith.Jail.{Disk, is_dot_dot}
use tool_smith.Transport.{
  AgentSkill, Skills, SkillBody, Entry, directory, file, unreachable, Volume, Host, Transport,
  make_response, make_error, invalid_params, internal_error, member, array_of,
}

abbrev skill_row : AgentSkill → Json
skill_row s = obj (
    field (ascii "uri") (str (ascii "skill://" ++ s.name)) (
      field (ascii "name") (str s.name) (
        field (ascii "description") (str s.description)
          (field (ascii "mimeType") (str (ascii "text/markdown")) end))))

abbrev file_row : Bytes → Json
file_row path = obj (
    field (ascii "uri") (str (ascii "file://" ++ path))
      (field (ascii "name") (str path) (field (ascii "mimeType") (str (ascii "text/plain")) end)))

-- The loop over the walk; `left` files may still be listed.
unfoldable pub list_files : ℕ → List Entry → List Json
list_files zero entries = []
list_files (suc left) [] = []
list_files (suc left) (directory ∷ entries) = list_files (suc left) entries
list_files (suc left) (unreachable ∷ entries) = list_files (suc left) entries
list_files (suc left) (file path ∷ entries) = file_row path ∷ list_files left entries

-- `m_CoreRuntime && m_Registry->IsAdvertised("skills")`.
abbrev pub shown_skills : {W : Type 0} → Host W → Transport W → Option Skills
shown_skills host t = if is_advertised t.tools.0 (ascii "skills") then host.skills else none

abbrev skill_rows : Option Skills → List Json
skill_rows none = []
skill_rows (some s) = map skill_row s.skills

abbrev pub max_entries : ℕ
max_entries = 200

unfoldable pub file_rows : {W : Type 0} → Host W → List Json
file_rows host =
    let root = to_path host.resource_root in
    if is_empty host.resource_root
    then []
    else if not (host.volume.disk.exists root && host.volume.disk.is_directory root)
    then []
    else list_files max_entries (host.volume.walk root)

unfoldable pub handle_resources_list : {W : Type 0} → Host W → Json → Transport W → Json
handle_resources_list host id t = make_response id (
    member (ascii "resources")
      (arr (array_of (skill_rows (shown_skills host t) ++ file_rows host))))

abbrev contents : Bytes → Bytes → Bytes → Json
contents uri mime text = member (ascii "contents") (
    arr (
      cons
        (obj (
          field (ascii "uri") (str uri)
            (field (ascii "mimeType") (str mime) (field (ascii "text") (str text) end))))
        nil))

-- The text before the first slash and the text behind it.
unfoldable pub split_slash : Bytes → Bytes × Bytes
split_slash [] = ([], [])
split_slash (c ∷ s) =
    let (name, rel) = split_slash s in if c == b'/' then ([], s) else (c ∷ name, rel)

unfoldable pub skill_root : Bytes → List AgentSkill → FilePath
skill_root name [] = []
skill_root name (s ∷ skills) =
    let rest = skill_root name skills in if str_eq s.name name then s.root else rest

abbrev or_empty : Option FilePath → FilePath
or_empty none = []
or_empty (some p) = p

-- `outside`: there is no relative path, or it climbs.
unfoldable pub outside_of : FilePath → FilePath → Bool
outside_of root full = let rel = lexically_relative full root in is_empty rel || any is_dot_dot rel

abbrev text_of : Option Bytes → Bytes
text_of none = []
text_of (some s) = s

unfoldable pub read_skill_file : {W : Type 0} → Host W → Json → Bytes → FilePath → Bytes → Json
read_skill_file host id uri skill rel =
    let full = or_empty (host.volume.disk.weakly_canonical (join skill (to_path rel))) in
    let root = or_empty (host.volume.disk.weakly_canonical skill) in
    if outside_of root full
    then make_error id invalid_params (ascii "Access denied: path outside skill root")
    else if not (host.volume.is_regular_file full)
    then make_error id invalid_params (ascii "Resource not found: " ++ uri)
    else make_response id
        (contents uri (ascii "text/plain") (cap_head (text_of (host.volume.read_all full))).0)

abbrev pub read_body : Json → Bytes → SkillBody → Json
read_body id uri body =
    if not (is_empty body.error)
    then make_error id invalid_params body.error
    else make_response id (contents uri (ascii "text/markdown") (cap_head body.body).0)

unfoldable pub read_skill :
    {W : Type 0} → Host W → Json → Bytes → Bytes × Bytes → Option Skills → Json
read_skill host id uri named none =
    make_error id invalid_params (ascii "skills pack is not advertised; call activate pack=skills")
read_skill host id uri (name, rel) (some s) =
    if is_empty rel
    then read_body id uri (s.load_body name)
    else if is_empty (skill_root name s.skills)
    then make_error id invalid_params (ascii "Unknown skill: " ++ name)
    else read_skill_file host id uri (skill_root name s.skills) rel

abbrev strip_scheme : Bytes → Bytes
strip_scheme uri = if starts_with (ascii "file://") uri then drop 7 uri else uri

-- What the checks of a file resource come to: an error, or the canonical path of the file.
pub data Located : Type 0 where
  denied : ℤ → Bytes → Located
  located : FilePath → Located

abbrev pub full_path : {W : Type 0} → Host W → Bytes → FilePath
full_path host uri =
    host.volume.lexically_normal (join (to_path host.resource_root) (to_path (strip_scheme uri)))

abbrev access_denied : Bytes
access_denied = ascii "Access denied: path outside resource root"

-- The text of the canonical path starts with the text of the root.
unfoldable pub under_root : Disk → FilePath → FilePath → Bool
under_root disk root path = starts_with (disk.text root) (disk.text path)

abbrev pub check_canonical : Disk → FilePath → Option FilePath → Located
check_canonical disk root none = denied invalid_params access_denied
check_canonical disk root (some path) =
    if under_root disk root path then located path else denied invalid_params access_denied

abbrev pub locate_in : {W : Type 0} → Host W → Bytes → Option FilePath → Located
locate_in host uri none = denied internal_error (ascii "Cannot resolve resource root")
locate_in host uri (some root) =
    if not (host.volume.disk.exists (full_path host uri))
    then denied invalid_params (ascii "Resource not found: " ++ uri)
    else check_canonical host.volume.disk root (host.volume.disk.canonical (full_path host uri))

unfoldable pub locate : {W : Type 0} → Host W → Bytes → Located
locate host uri = locate_in host uri (host.volume.disk.canonical (to_path host.resource_root))

abbrev pub max_read_size : ℕ
max_read_size = 1048576

abbrev pub read_opened : Json → Bytes → Option Bytes → Json
read_opened id uri none = make_error id internal_error (ascii "Cannot open resource: " ++ uri)
read_opened id uri (some bytes) =
    make_response id (contents uri (ascii "text/plain") (take max_read_size bytes))

abbrev pub read_located : {W : Type 0} → Host W → Json → Bytes → Located → Json
read_located host id uri (denied code message) = make_error id code message
read_located host id uri (located path) = read_opened id uri (host.volume.read_all path)

unfoldable pub read_uri : {W : Type 0} → Host W → Json → Bytes → Transport W → Json
read_uri host id uri t =
    if starts_with (ascii "skill://") uri
    then read_skill host id uri (split_slash (drop 8 uri)) (shown_skills host t)
    else read_located host id uri (locate host uri)

abbrev pub missing_uri : Json → Json
missing_uri id = make_error id invalid_params (ascii "Missing required parameter: uri")

abbrev pub read_given : {W : Type 0} → Host W → Json → Transport W → Option Bytes → Json
read_given host id t none = missing_uri id
read_given host id t (some uri) = read_uri host id uri t

unfoldable pub handle_resources_read : {W : Type 0} → Host W → Json → Json → Transport W → Json
handle_resources_read host params id t =
    read_given host id t (string_of (find (ascii "uri") params))

abbrev pub with_mtime : {W : Type 0} → Bytes → Option ℕ → Transport W → Transport W
with_mtime uri none t = t
with_mtime uri (some mtime) t = record t {
  subscribed_mtimes = insert uri mtime t.subscribed_mtimes;
}

-- The subscription is added, and the watcher runs.
unfoldable pub subscribe : {W : Type 0} → Host W → Bytes → FilePath → Transport W → Transport W
subscribe host uri path t =
    with_mtime uri (host.volume.last_write_time path)
      (record t { subscribed_uris = add uri t.subscribed_uris; watching = true })

abbrev pub subscribe_located :
    {W : Type 0} → Host W → Json → Bytes → Transport W → Located → Json × Transport W
subscribe_located host id uri t (denied code message) = (make_error id code message, t)
subscribe_located host id uri t (located path) =
    (make_response id (obj end), subscribe host uri path t)

abbrev pub subscribe_given :
    {W : Type 0} → Host W → Json → Transport W → Option Bytes → Json × Transport W
subscribe_given host id t none = (missing_uri id, t)
subscribe_given host id t (some uri) = subscribe_located host id uri t (locate host uri)

unfoldable pub handle_resources_subscribe :
    {W : Type 0} → Host W → Json → Json → Transport W → Json × Transport W
handle_resources_subscribe host params id t =
    subscribe_given host id t (string_of (find (ascii "uri") params))

-- The watcher is stopped when nothing is subscribed any more; the handler comes back when the join does,
-- of which Resources/Watcher has the steps.
unfoldable pub unsubscribe : {W : Type 0} → Bytes → Transport W → Transport W
unsubscribe uri t =
    let left = remove uri t.subscribed_uris in
    record t {
      subscribed_uris = left;
      subscribed_mtimes = erase uri t.subscribed_mtimes;
      watching = if is_empty left then false else t.watching;
    }

abbrev pub unsubscribe_given : {W : Type 0} → Json → Transport W → Option Bytes → Json × Transport W
unsubscribe_given id t none = (missing_uri id, t)
unsubscribe_given id t (some uri) = (make_response id (obj end), unsubscribe uri t)

unfoldable pub handle_resources_unsubscribe :
    {W : Type 0} → Json → Json → Transport W → Json × Transport W
handle_resources_unsubscribe params id t =
    unsubscribe_given id t (string_of (find (ascii "uri") params))
