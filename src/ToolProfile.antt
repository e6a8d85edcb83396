-- ===== src/ToolProfile.antt =====
-- src/core/ToolProfile.cpp and include/core/ToolProfile.h: which tools are advertised for a profile,
-- with packs switched on and off and tools pinned. The file system is a parameter: what a scan of a
-- workspace finds.
pub mod Names
pub mod Advertised
pub mod Core
use tool_smith.Base.{
  ℕ, ◌+◌, Bool, true, false, not, ◌&&◌, ◌||◌, List, [], ◌∷◌, ◌++◌, map, Option, none, some, leb,
  if◌then◌else◌, Bytes, ascii, str_eq, is_empty, contains, add, remove, Dict, lookup, any,
}

-- The root exists and is a directory; two files in it; the extensions of its regular files.
pub record Workspace : Type 0 where
  pub is_directory : Bool
  pub has_cmake_lists : Bool
  pub has_compile_commands : Bool
  pub extensions : List Bytes

pub record ResolveInput : Type 0 where
  pub profile : Bytes
  pub enable : List Bytes
  pub disable : List Bytes
  pub pin_tools : List Bytes
  pub workspace_root : Bytes

pub record ResolveOutput : Type 0 where
  pub profile : Bytes
  pub advertised : List Bytes
  pub error : Bytes
  pub load_all_plugins : Bool

abbrev pub core_tools : List Bytes
core_tools =
    ascii "read"
    ∷ ascii "edit"
    ∷ ascii "search"
    ∷ ascii "shell"
    ∷ ascii "catalog"
    ∷ ascii "activate"
    ∷ ascii "deactivate"
    ∷ ascii "project"
    ∷ []

abbrev pub language_extra : List Bytes
language_extra = ascii "git" ∷ ascii "build" ∷ ascii "test" ∷ ascii "diagnose" ∷ []

-- `std::tolower` in the "C" locale.
abbrev pub to_lower : ℕ → ℕ
to_lower c = if leb b'A' c && leb c b'Z' then c + 32 else c

unfoldable pub lower : Bytes → Bytes
lower s = map to_lower s

unfoldable pub detect : (Bytes → Workspace) → Bytes → Bytes
unfolding lower
detect look root =
    let w = look root in
    let cpp =
      w.has_cmake_lists
      || w.has_compile_commands
      || any (λ e. str_eq (lower e) (ascii ".vcxproj")) w.extensions in
    let csharp =
      any (λ e. str_eq (lower e) (ascii ".csproj") || str_eq (lower e) (ascii ".sln"))
        w.extensions in
    if not w.is_directory
    then ascii "core"
    else if cpp && csharp
    then ascii "fullstack"
    else if cpp
    then ascii "cpp"
    else if csharp
    then ascii "csharp"
    else ascii "core"

abbrev pub profiles : List Bytes
profiles =
    ascii "auto"
    ∷ ascii "core"
    ∷ ascii "cpp"
    ∷ ascii "csharp"
    ∷ ascii "fullstack"
    ∷ ascii "all"
    ∷ []

unfoldable pub normalize : Bytes → Bytes
normalize raw =
    let low = lower raw in
    if is_empty low then ascii "auto" else if contains profiles low then low else []

abbrev pub has_language : Bytes → Bool
has_language profile =
    str_eq profile (ascii "cpp")
    || str_eq profile (ascii "csharp")
    || str_eq profile (ascii "fullstack")

unfoldable pub add_all : List Bytes → List Bytes → List Bytes
add_all [] tools = tools
add_all (t ∷ ts) tools = add_all ts (add t tools)

unfoldable pub remove_all : List Bytes → List Bytes → List Bytes
remove_all [] tools = tools
remove_all (t ∷ ts) tools = remove_all ts (remove t tools)

-- No tool at all for "all", which means no restriction.
unfoldable pub tools_for_profile : Bytes → List Bytes
unfolding add_all
tools_for_profile profile =
    if str_eq profile (ascii "all")
    then []
    else let core = add_all core_tools [] in
      if has_language profile then add_all language_extra core else core

abbrev optional_packs : List Bytes
optional_packs =
    ascii "github"
    ∷ ascii "github-actions"
    ∷ ascii "jira"
    ∷ ascii "unity"
    ∷ ascii "unreal"
    ∷ ascii "skills"
    ∷ ascii "llm"
    ∷ ascii "remote"
    ∷ ascii "memory"
    ∷ ascii "desktop-notify"
    ∷ ascii "entrian"
    ∷ ascii "everything"
    ∷ ascii "git_write"
    ∷ ascii "filesystem"
    ∷ ascii "shell-bg"
    ∷ []

unfoldable pub is_optional_pack : Bytes → Bool
is_optional_pack pack = contains optional_packs pack

abbrev pub pack_tools : Dict (List Bytes)
pack_tools =
    (ascii "git_write", ascii "git_write" ∷ [])
    ∷ (ascii "github", [])
    ∷ (ascii "skills", ascii "skills" ∷ ascii "skill" ∷ [])
    ∷ (ascii "llm", ascii "llm" ∷ [])
    ∷ (ascii "remote", ascii "remote" ∷ [])
    ∷ []

-- The loops give the set as it stands when they end or return, and the error, empty if there is none.
unfoldable pub enable_packs : List Bytes → List Bytes → List Bytes × Bytes
unfolding add_all
enable_packs [] tools = (tools, [])
enable_packs (pack ∷ packs) tools =
    let with_pack : List Bytes → List Bytes × Bytes = λ ts. enable_packs packs (add_all ts tools) in
    let without = enable_packs packs tools in
    if is_empty pack
    then (tools, ascii "Empty pack id in tools.enable")
    else elim (lookup pack pack_tools) [
      | some ts ↦ with_pack ts
      | none ↦ if is_optional_pack pack then without else (tools, ascii "Unknown pack id: " ++ pack)
    ]

unfoldable pub disable_packs : List Bytes → List Bytes → List Bytes
unfolding remove_all
disable_packs [] tools = tools
disable_packs (pack ∷ packs) tools =
    disable_packs packs
      (elim (lookup pack pack_tools) [ none ↦ tools | some ts ↦ remove_all ts tools ])

abbrev pub other_pins : List Bytes
other_pins = ascii "skills" ∷ ascii "skill" ∷ ascii "llm" ∷ ascii "remote" ∷ ascii "echo" ∷ []

abbrev pub may_pin : List Bytes → Bytes → Bool
may_pin tools t =
    contains tools t || contains core_tools t || contains language_extra t || contains other_pins t

abbrev pub empty_pin : Bytes
empty_pin = ascii "Empty tool name in --tools"

-- The pins checked and collected, starting from `pin`.
unfoldable pub pin_to : List Bytes → List Bytes → List Bytes → List Bytes × Bytes
pin_to tools [] pin = (pin, [])
pin_to tools (t ∷ ts) pin =
    let rest = pin_to tools ts (add t pin) in
    if is_empty t
    then (tools, empty_pin)
    else if may_pin tools t
    then rest
    else (tools, ascii "Unknown tool in --tools: " ++ t)

-- Under "all" every name that is not empty may be pinned.
unfoldable pub pin_all : List Bytes → List Bytes → List Bytes × Bytes
pin_all [] pin = (pin, [])
pin_all (t ∷ ts) pin =
    let rest = pin_all ts (add t pin) in if is_empty t then (pin, empty_pin) else rest

abbrev output : Bytes → Bool → List Bytes × Bytes → ResolveOutput
output profile all (advertised, error) = record {
  profile = profile;
  advertised = advertised;
  error = error;
  load_all_plugins = all;
}

-- From the tools of the profile on.
unfoldable pub choose : ResolveInput → List Bytes → List Bytes × Bytes
unfolding enable_packs disable_packs pin_to
choose input base =
    let (tools, error) = enable_packs input.enable base in
    if not (is_empty error)
    then (tools, error)
    else let left = disable_packs input.disable tools in
      if is_empty input.pin_tools then (left, []) else pin_to left input.pin_tools []

-- The profile that is asked for, with "auto" replaced by what the scan finds.
unfoldable pub profile_of : (Bytes → Workspace) → ResolveInput → Bytes
unfolding normalize detect
profile_of look input =
    let asked = normalize (if is_empty input.profile then ascii "auto" else input.profile) in
    if str_eq asked (ascii "auto") then detect look input.workspace_root else asked

abbrev unknown_profile : Bytes → ResolveOutput
unknown_profile profile = output [] false (
  [],
  ascii "Unknown profile: " ++ (profile ++ ascii " (want auto|core|cpp|csharp|fullstack|all)"),
)

unfoldable pub resolve_for : ResolveInput → Bytes → ResolveOutput
resolve_for input profile =
    if is_empty profile
    then unknown_profile input.profile
    else if str_eq profile (ascii "all")
    then output profile true (pin_all input.pin_tools [])
    else output profile false (choose input (tools_for_profile profile))

unfoldable pub resolve : (Bytes → Workspace) → ResolveInput → ResolveOutput
resolve look input = resolve_for input (profile_of look input)
