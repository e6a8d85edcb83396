-- ===== src/Jail.antt =====
-- src/core/WorkspaceJail.cpp and include/core/WorkspaceJail.h: which paths the tools may write. What
-- asks the file system (`Disk`) is a parameter.
pub mod Inside
pub mod Confined
pub mod Detect
use tool_smith.Base.{
  ℕ, zero, suc, length, Bool, true, false, not, ◌&&◌, Option, none, some, List, [], ◌∷◌, ◌++◌,
  Bytes, ascii, str_eq, is_empty, any, if◌then◌else◌,
}
use tool_smith.Base.Except.{Except, ok, throw, runtime_error}
use tool_smith.Base.FilePath.{
  FilePath, to_path, is_absolute, join, lexically_relative, dot_dot, parent_path, path_eq,
}

-- The calls that ask the file system; `none` where one reports an error. `text` is `path::string`.
pub record Disk : Type 0 where
  pub current_path : FilePath
  pub absolute : FilePath → Option FilePath
  pub canonical : FilePath → Option FilePath
  pub weakly_canonical : FilePath → Option FilePath
  pub exists : FilePath → Bool
  pub is_directory : FilePath → Bool
  pub text : FilePath → Bytes

pub record WorkspaceJail : Type 0 where
  pub root : FilePath
  pub allow : List FilePath

pub record ResolveResult : Type 0 where
  pub path : FilePath
  pub outside_workspace : Bool
  pub error : Bytes

-- `Canonical`; the empty path where it fails.
abbrev or_else : FilePath → Option FilePath → FilePath
or_else p none = p
or_else p (some q) = q

unfoldable pub canonical_of : Disk → FilePath → Bool → FilePath
canonical_of disk p must_exist = elim (disk.absolute p) [
  | none ↦ []
  | some abs ↦
      if must_exist
      then or_else [] (disk.canonical abs)
      else or_else abs (disk.weakly_canonical abs)
]

abbrev pub git_directory : FilePath
git_directory = ascii ".git" ∷ []

-- The loop of `DetectRoot`, on fuel: the directory it stops at, and whether that holds `.git`;
-- `none` when the fuel ran out.
unfoldable pub walk_up : Disk → ℕ → FilePath → Option (FilePath × Bool)
walk_up disk zero walk = none
walk_up disk (suc n) walk =
    let rest = walk_up disk n (parent_path walk) in
    if disk.exists (join walk git_directory)
    then some (walk, true)
    else if path_eq walk (parent_path walk)
    then some (walk, false)
    else rest

-- Where the search starts; `absolute` that fails leaves the path as it is given.
unfoldable pub search_start : Disk → FilePath → FilePath
search_start disk start =
    elim (disk.absolute (if is_empty start then disk.current_path else start)) [
      | none ↦ start
      | some cur ↦ cur
    ]

unfoldable pub root_of : Disk → FilePath → Option (FilePath × Bool) → Option FilePath
unfolding canonical_of
root_of disk cur none = none
root_of disk cur (some (walk, found)) =
    some (if found then canonical_of disk walk true else canonical_of disk cur false)

-- The search takes no more steps than the path has elements.
unfoldable pub detect_root : Disk → FilePath → Option FilePath
detect_root disk start =
    let cur = search_start disk start in root_of disk cur (walk_up disk (suc (length cur)) cur)

unfoldable pub allowed_directories : Disk → List FilePath → List FilePath
unfolding canonical_of
allowed_directories disk [] = []
allowed_directories disk (a ∷ allow) =
    let c = canonical_of disk a false in
    let rest = allowed_directories disk allow in
    if not (is_empty c) && disk.exists c then c ∷ rest else rest

unfoldable pub open_jail : Disk → FilePath → List FilePath → Except WorkspaceJail
unfolding allowed_directories canonical_of
open_jail disk root allow =
    let resolved = canonical_of disk (if is_empty root then disk.current_path else root) false in
    if is_empty resolved
    then throw (
        runtime_error
          (ascii "Workspace root does not exist or is not a directory: " ++ disk.text root))
    else if not (disk.exists resolved && disk.is_directory resolved)
    then throw (
        runtime_error
          (ascii "Workspace root does not exist or is not a directory: " ++ disk.text root))
    else ok (record { root = resolved; allow = allowed_directories disk allow })

abbrev pub is_dot_dot : Bytes → Bool
is_dot_dot e = str_eq e dot_dot

unfoldable pub inside : FilePath → FilePath → Bool
unfolding lexically_relative
inside root p =
    let rel = lexically_relative p root in if is_empty rel then false else not (any is_dot_dot rel)

unfoldable pub contains_path : WorkspaceJail → FilePath → Bool
contains_path jail p = if inside jail.root p then true else any (λ a. inside a p) jail.allow

abbrev failed : Bytes → ResolveResult
failed error = record { path = []; outside_workspace = false; error = error }

-- From the canonical path on.
unfoldable pub admit_path : Disk → WorkspaceJail → Bytes → FilePath → Bool → ResolveResult
admit_path disk jail user_path canon for_write =
    if any is_dot_dot canon
    then failed (ascii "Path traversal is not allowed: " ++ user_path)
    else if for_write && not (contains_path jail canon)
    then failed (ascii "Write path is outside the workspace jail: " ++ disk.text canon)
    else record { path = canon; outside_workspace = not (contains_path jail canon); error = [] }

-- The path that is looked at: relative paths start at the root.
unfoldable pub canonical_path : Disk → WorkspaceJail → Bytes → FilePath
unfolding to_path
canonical_path disk jail user_path =
    let abs = join jail.root (to_path user_path) in
    elim (disk.weakly_canonical abs) [ some canon ↦ canon | none ↦ or_else [] (disk.absolute abs) ]

unfoldable pub resolve : Disk → WorkspaceJail → Bytes → Bool → ResolveResult
resolve disk jail user_path for_write =
    if is_empty user_path
    then failed (ascii "Missing required argument: path")
    else admit_path disk jail user_path (canonical_path disk jail user_path) for_write
