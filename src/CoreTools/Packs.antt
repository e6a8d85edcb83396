-- ===== src/CoreTools/Packs.antt =====
-- `CoreRuntime`, and the commands that change which tools are advertised: `RegisterCoreTools`,
-- `CatalogCommand`, `ActivateCommand` and `DeactivateCommand`. The runtime's mutex makes each of them
-- one step.
pub mod Locks
pub mod Lost
pub mod Sync
use tool_smith.Base.{
  ℕ, suc, Bool, true, false, not, ◌&&◌, ◌||◌, Option, none, some, List, [], ◌∷◌, ◌++◌, Bytes, ascii,
  is_empty, str_eq, contains, add, remove, if◌then◌else◌,
}
use tool_smith.Base.Except.{Except, ok, throw, ◌>>=◌}
use tool_smith.Json.{Json, bool, str, obj, Fields, end, field, find}
use tool_smith.Registry.{Registry, register_command, set_advertised}
use tool_smith.Registry.Chain.{text_or}
use tool_smith.ToolProfile.{core_tools, language_extra, is_optional_pack}
use tool_smith.CoreTools.{payload, ok_result, err_result}

-- The fields of `CoreRuntime` that these commands use; the registry is the one it points to.
pub record CoreRuntime : Type 0 where
  pub advertised : List Bytes
  pub locked : List Bytes
  pub registry : Registry

unfoldable pub sync_advertised : CoreRuntime → CoreRuntime
sync_advertised rt = record rt { registry = set_advertised rt.advertised rt.registry }

abbrev pub with_advertised : CoreRuntime → List Bytes → CoreRuntime
with_advertised rt names = sync_advertised (record rt { advertised = names })

-- The answer and the state after it.
abbrev pub Reply : Type 0
Reply = Json × CoreRuntime

abbrev pub said : Bytes → CoreRuntime → Reply
said text rt = (obj (ok_result text false), rt)

abbrev pub refuse : Bytes → CoreRuntime → Reply
refuse message rt = (err_result message, rt)

unfoldable pub activate_pack : Bytes → CoreRuntime → Reply
activate_pack pack rt =
    if is_empty pack
    then refuse (ascii "Missing required argument: pack") rt
    else if str_eq pack (ascii "skills")
    then said (ascii "Activated pack skills")
        (with_advertised rt (add (ascii "skill") (add (ascii "skills") rt.advertised)))
    else if str_eq pack (ascii "llm")
    then said (ascii "Activated pack llm") (with_advertised rt (add (ascii "llm") rt.advertised))
    else if str_eq pack (ascii "remote")
    then said (ascii "Activated pack remote")
        (with_advertised rt (add (ascii "remote") rt.advertised))
    else if str_eq pack (ascii "git")
    then said (ascii "Activated pack git") (with_advertised rt (add (ascii "git") rt.advertised))
    else if str_eq pack (ascii "core")
    then refuse (ascii "core pack is always on") rt
    else if is_optional_pack pack
    then refuse
        (ascii "Pack '"
          ++ (pack
              ++ ascii
                  "' is not loaded in this process. Pin it with --profile all or tools.enable in config."))
        rt
    else refuse (ascii "Unknown pack: " ++ pack) rt

unfoldable pub activate : Json → CoreRuntime → Except Reply
activate request rt = do
  pack ← text_or [] (find (ascii "pack") (payload request))
  ok (activate_pack pack rt)

unfoldable pub deactivate_tool : Bytes → CoreRuntime → Reply
deactivate_tool tool rt =
    if contains rt.locked tool
    then refuse (ascii "Cannot deactivate core tool: " ++ tool) rt
    else if not (contains rt.advertised tool)
    then refuse (ascii "Tool is not advertised: " ++ tool) rt
    else said (ascii "Deactivated tool " ++ tool) (with_advertised rt (remove tool rt.advertised))

unfoldable pub deactivate_pack : Bytes → CoreRuntime → Reply
deactivate_pack pack rt =
    if is_empty pack
    then refuse (ascii "Missing required argument: pack or tool") rt
    else if str_eq pack (ascii "core")
    then refuse (ascii "Cannot deactivate core pack") rt
    else if str_eq pack (ascii "skills")
    then said (ascii "Deactivated pack skills")
        (with_advertised rt (remove (ascii "skill") (remove (ascii "skills") rt.advertised)))
    else if str_eq pack (ascii "git") && contains rt.locked (ascii "git")
    then refuse (ascii "Cannot deactivate git in this profile") rt
    else said (ascii "Deactivated pack " ++ pack) (with_advertised rt (remove pack rt.advertised))

-- A tool that is named goes before a pack.
unfoldable pub deactivate_given : Bytes → Bytes → CoreRuntime → Reply
deactivate_given pack tool rt =
    if is_empty tool then deactivate_pack pack rt else deactivate_tool tool rt

unfoldable pub deactivate : Json → CoreRuntime → Except Reply
deactivate request rt = do
  pack ← text_or [] (find (ascii "pack") (payload request))
  tool ← text_or [] (find (ascii "tool") (payload request))
  ok (deactivate_given pack tool rt)

-- Whether the catalog shows a pack as active.
unfoldable pub pack_active : CoreRuntime → Bytes → Bool
pack_active rt id =
    if str_eq id (ascii "core")
    then contains rt.advertised (ascii "read")
    else if contains (ascii "git" ∷ ascii "skills" ∷ ascii "llm" ∷ ascii "remote" ∷ []) id
    then contains rt.advertised id
    else false

abbrev pub catalog_rows : List (Bytes × Bytes)
catalog_rows =
    (ascii "core", ascii "Native read/edit/search/shell/project")
    ∷ (ascii "git", ascii "Read-only git")
    ∷ (ascii "git_write", ascii "Destructive git (commit/sync/reset/push)")
    ∷ (ascii "skills", ascii "Agent Skills via .agents/skills")
    ∷ (ascii "llm", ascii "LiteLLM completion tool")
    ∷ (ascii "remote", ascii "Composite remote MCP")
    ∷ (ascii "github", ascii "GitHub CLI pack")
    ∷ (ascii "jira", ascii "Jira pack")
    ∷ (ascii "unity", ascii "Unity pack")
    ∷ (ascii "unreal", ascii "Unreal pack")
    ∷ []

abbrev catalog_row : CoreRuntime → Bytes × Bytes → Json
catalog_row rt (id, description) = obj (
    field (ascii "id") (str id) (
      field (ascii "description") (str description)
        (field (ascii "active") (bool (pack_active rt id)) end)))

-- `catalog`; printing the array is the JSON library's, `dump`.
unfoldable pub catalog : (List Json → Bytes) → CoreRuntime → Json
catalog dump rt = obj (ok_result (dump (rows catalog_rows)) false)
  where
    rows : List (Bytes × Bytes) → List Json
    rows [] = []
    rows (r ∷ rs) = catalog_row rt r ∷ rows rs

unfoldable pub lock_all : List Bytes → List Bytes → List Bytes
lock_all [] locked = locked
lock_all (t ∷ ts) locked = lock_all ts (add t locked)

unfoldable pub lock_advertised : List Bytes → List Bytes → List Bytes → List Bytes
lock_advertised advertised [] locked = locked
lock_advertised advertised (t ∷ ts) locked =
    let with_t = lock_advertised advertised ts (add t locked) in
    let without = lock_advertised advertised ts locked in
    if contains advertised t then with_t else without

abbrev pub tool_names : List Bytes
tool_names =
    ascii "read"
    ∷ ascii "edit"
    ∷ ascii "search"
    ∷ ascii "shell"
    ∷ ascii "project"
    ∷ ascii "git"
    ∷ ascii "build"
    ∷ ascii "test"
    ∷ ascii "diagnose"
    ∷ ascii "catalog"
    ∷ ascii "activate"
    ∷ ascii "deactivate"
    ∷ ascii "skills"
    ∷ ascii "skill"
    ∷ []

-- The commands get one address after the other, from `next` on.
unfoldable pub register_all : List Bytes → ℕ → Registry → Except Registry
register_all [] next r = ok r
register_all (name ∷ names) next r = do
  r' ← register_command name next r
  register_all names (suc next) r'

unfoldable pub register_core_tools : ℕ → Registry → CoreRuntime → Except CoreRuntime
register_core_tools next r rt = do
  r' ← register_all tool_names next r
  ok (record {
    advertised = rt.advertised;
    locked = lock_advertised rt.advertised language_extra (lock_all core_tools rt.locked);
    registry = r';
  })
