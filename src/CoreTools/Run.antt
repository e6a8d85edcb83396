-- ===== src/CoreTools/Run.antt =====
-- `ShellCommand` and `GitCommand`: which program is started, with which arguments, in which directory
-- and with which time limit, and what becomes of its output. `RunProc`, which starts it and keeps to the
-- limit as far as it does, is not modelled: what it gives is a parameter.
pub mod Plans
pub mod Git
use tool_smith.Base.Int.{ℤ, pos, negsuc, clamp}
use tool_smith.Base.{
  ℕ, Bool, true, false, not, ◌&&◌, ◌||◌, Option, none, some, List, [], ◌∷◌, ◌++◌, Bytes, ascii,
  is_empty, str_eq, contains, if◌then◌else◌, ◌==◌, decimal,
}
use tool_smith.Base.Except.{Except, ok, throw, ◌>>=◌}
use tool_smith.Base.FilePath.{FilePath}
use tool_smith.Json.{Json, bool, int, str, obj, Fields, end, field, find}
use tool_smith.Registry.Chain.{text_or}
use tool_smith.Jail.{Disk, WorkspaceJail, ResolveResult, resolve}
use tool_smith.CoreTools.{
  payload, cap_head, cap_tail, err_fields, err_result, ok_fields, ok_result, clamp_int, int_or,
  bool_or, strip_ansi,
}

pub record ProcResult : Type 0 where
  pub output : Bytes
  pub timed_out : Bool
  pub started : Bool

-- A program that is to be started; `cwd` is empty where the server's own directory is meant.
pub record Launch : Type 0 where
  pub program : Bytes
  pub args : List Bytes
  pub timeout : ℕ
  pub cwd : FilePath
  pub request_id : Bytes

-- What a command comes to: an answer at once, or a program.
pub data Plan : Type 0 where
  answer : Json → Plan
  launch : Launch → Plan

abbrev pub default_timeout : ℤ
default_timeout = pos 30

abbrev pub shell_launch : ResolveResult → Bytes → ℤ → Bytes → Launch
shell_launch resolved command timeout request_id = record {
  program = ascii "/bin/sh";
  args = ascii "-c" ∷ command ∷ [];
  timeout = clamp (clamp_int timeout (pos 1) (pos 120) default_timeout);
  cwd = resolved.path;
  request_id = request_id;
}

unfoldable pub shell_at : (Bytes → ℤ) → Json → Bytes → ResolveResult → Except Plan
shell_at truncate p command resolved =
    if not (is_empty resolved.error) then ok (answer (err_result resolved.error)) else do
      timeout ← int_or truncate default_timeout (find (ascii "timeout") p)
      request_id ← text_or [] (find (ascii "_requestId") p)
      ok (launch (shell_launch resolved command timeout request_id))

abbrev pub or_dot : Bytes → Bytes
or_dot s = if is_empty s then ascii "." else s

unfoldable pub shell_in : (Bytes → ℤ) → Disk → WorkspaceJail → Json → Bytes → Except Plan
shell_in truncate disk jail p command =
    if is_empty command
    then ok (answer (err_result (ascii "Missing required argument: command")))
    else do
      cwd ← text_or [] (find (ascii "cwd") p)
      shell_at truncate p command (resolve disk jail (or_dot cwd) true)

unfoldable pub shell_plan : (Bytes → ℤ) → Disk → WorkspaceJail → Json → Except Plan
shell_plan truncate disk jail request = do
  command ← text_or [] (find (ascii "command") (payload request))
  shell_in truncate disk jail (payload request) command

-- Whether `needle` stands at the start, and whether it stands anywhere.
unfoldable pub starts_with : Bytes → Bytes → Bool
starts_with [] s = true
starts_with (c ∷ needle) [] = false
starts_with (c ∷ needle) (d ∷ s) = (c == d) && starts_with needle s

unfoldable pub occurs : Bytes → Bytes → Bool
occurs needle [] = starts_with needle []
occurs needle (c ∷ s) = starts_with needle (c ∷ s) || occurs needle s

abbrev add_field : Bytes → Json → Fields → Fields
add_field k v end = field k v end
add_field k v (field j w fs) = field j w (add_field k v fs)

-- `shell`, once the program has run.
unfoldable pub shell_report : ℕ → ProcResult → Json
shell_report timeout proc =
    let (body, trunc) = cap_tail proc.output in
    if not proc.started
    then err_result (ascii "Failed to start shell: " ++ proc.output)
    else if occurs (ascii "cancelled") proc.output
    then obj (add_field (ascii "content") (str body) (err_fields (ascii "Command cancelled")))
    else if proc.timed_out
    then obj (
        add_field (ascii "exit_code") (int (negsuc 0)) (
          add_field (ascii "truncated") (bool trunc) (
            add_field (ascii "content") (str body)
              (err_fields (ascii "Command timed out after " ++ (decimal timeout ++ ascii "s"))))))
    else obj (add_field (ascii "exit_code") (int (pos 0)) (ok_result body trunc))

abbrev pub git_run : Bytes → List Bytes → ℕ → Launch
git_run root args timeout = record {
  program = ascii "git";
  args = ascii "-C" ∷ root ∷ args;
  timeout = timeout;
  cwd = [];
  request_id = [];
}

abbrev pub git_launch : Bytes → List Bytes → ℕ → Plan
git_launch root args timeout = launch (git_run root args timeout)

abbrev pub log_limit : ℤ → Bytes
log_limit limit = decimal (clamp (clamp_int limit (pos 1) (pos 30) (pos 10)))

unfoldable pub git_blame : Disk → Bytes → ResolveResult → Plan
git_blame disk root resolved =
    if not (is_empty resolved.error)
    then answer (err_result resolved.error)
    else git_launch root
        (ascii "blame" ∷ ascii "-L" ∷ ascii "1,40" ∷ ascii "--" ∷ disk.text resolved.path ∷ []) 15

unfoldable pub git_diff : Bytes → Bool → Bytes → Plan
git_diff root full path =
    if full && is_empty path
    then answer (err_result (ascii "full diff requires path"))
    else if full
    then git_launch root (ascii "diff" ∷ ascii "--" ∷ path ∷ []) 20
    else git_launch root (ascii "diff" ∷ ascii "--stat" ∷ []) 20

abbrev pub unknown_action : Bytes → Bytes
unknown_action action =
    ascii "Unknown git action: " ++ (action ++ ascii " (want status|diff|log|blame|conflicts)")

unfoldable pub git_diff_args : Json → Bytes → Except Plan
git_diff_args p root = do
  full ← bool_or false (find (ascii "full") p)
  path ← text_or [] (find (ascii "path") p)
  ok (git_diff root full path)

unfoldable pub git_log_args : (Bytes → ℤ) → Json → Bytes → Except Plan
git_log_args truncate p root = do
  limit ← int_or truncate (pos 10) (find (ascii "limit") p)
  ok (git_launch root (ascii "log" ∷ ascii "-n" ∷ log_limit limit ∷ ascii "--oneline" ∷ []) 15)

unfoldable pub git_blame_args : Disk → WorkspaceJail → Json → Bytes → Except Plan
git_blame_args disk jail p root = do
  path ← text_or [] (find (ascii "path") p)
  ok (
      if is_empty path
      then answer (err_result (ascii "blame requires path"))
      else git_blame disk root (resolve disk jail path false))

-- The five actions.
unfoldable pub git_action : (Bytes → ℤ) → Disk → WorkspaceJail → Json → Bytes → Except Plan
git_action truncate disk jail p action =
    let root = disk.text jail.root in
    if str_eq action (ascii "status")
    then ok
        (git_launch root (ascii "status" ∷ ascii "-sb" ∷ ascii "--untracked-files=normal" ∷ []) 15)
    else if str_eq action (ascii "diff")
    then git_diff_args p root
    else if str_eq action (ascii "log")
    then git_log_args truncate p root
    else if str_eq action (ascii "blame")
    then git_blame_args disk jail p root
    else if str_eq action (ascii "conflicts")
    then ok (git_launch root (ascii "diff" ∷ ascii "--name-only" ∷ ascii "--diff-filter=U" ∷ []) 15)
    else ok (answer (err_result (unknown_action action)))

unfoldable pub git_plan : (Bytes → ℤ) → Disk → WorkspaceJail → Json → Except Plan
git_plan truncate disk jail request = do
  action ← text_or [] (find (ascii "action") (payload request))
  git_action truncate disk jail (payload request) action

-- `git`, once the program has run.
unfoldable pub git_report : Bytes → ProcResult → Json
git_report action proc =
    let (head, trunc) = cap_head proc.output in
    if not proc.started
    then err_result (ascii "git not available")
    else if str_eq action (ascii "diff")
    then obj (ok_result head trunc)
    else if str_eq action (ascii "conflicts") && is_empty proc.output
    then obj (ok_result (ascii "No conflicted files.\n") false)
    else obj (ok_result proc.output false)
