-- ===== src/Tests/Commands.antt =====
-- Packs that come and go, and the programs of the shell and git tools.
use tool_smith.Base.{◌≡◌, refl, true, false, List, [], ◌∷◌, ◌++◌, arith, ascii, str_eq, contains}
use tool_smith.Base.Except.{ok}
use tool_smith.Base.FilePath.{
  to_path, elements, lexically_relative, relative_from, relative_rest, rest_by, up_from, beneath,
  climb,
}
use tool_smith.Json.{Json, str, end, field, find_field}
use tool_smith.Registry.{Registry, is_advertised}
use tool_smith.Registry.Chain.{text_or}
use tool_smith.Jail.{resolve, admit_path, canonical_path, contains_path, inside}
use tool_smith.CoreTools.{payload, int_or, bool_or, clamp_int}
use tool_smith.CoreTools.Packs.{CoreRuntime}
use tool_smith.CoreTools.Packs.Locks.{
  Command, activates, deactivates, run_command, run_commands, IsFair, HoldsLocked,
  run_commands-HoldsLocked,
}
use tool_smith.CoreTools.Packs.Lost.{IsCoreTool, deactivate_pack-loses}
use tool_smith.CoreTools.Packs.Sync.{IsSynced, run_commands-IsSynced}
use tool_smith.CoreTools.Run.{
  Launch, launch, shell_plan, shell_in, shell_at, git_plan, git_action, git_diff_args, git_diff,
  git_run,
}
use tool_smith.CoreTools.Run.Plans.{IsShell, shell_plan-IsShell}
use tool_smith.CoreTools.Run.Git.{IsReading, git_plan-IsReading}
use tool_smith.Tests.Workspaces.{disk, jail, jailed, root, request, no_real}

abbrev registry : Registry
registry = record {
  commands = [];
  advertised = ascii "read" ∷ ascii "git" ∷ [];
  filter_advertised = true;
  chaining_enabled = true;
}

abbrev runtime : CoreRuntime
runtime = record {
  advertised = ascii "read" ∷ ascii "git" ∷ [];
  locked = ascii "read" ∷ [];
  registry = registry;
}

abbrev session : List Command
session =
    activates (ascii "skills") ∷ deactivates [] (ascii "read") ∷ deactivates (ascii "git") [] ∷ []

IsFair-git : IsFair runtime.locked (ascii "git")
unfolding contains str_eq
IsFair-git = record { name = λ h. absurd cc; skills = refl; skill = refl }

IsFair-none : IsFair runtime.locked []
unfolding contains str_eq
IsFair-none = record { name = λ h. absurd cc; skills = refl; skill = refl }

holds : HoldsLocked runtime
unfolding contains
holds t h = ground arith

run_commands-HoldsLocked_example : HoldsLocked (run_commands session runtime)
run_commands-HoldsLocked_example =
    run_commands-HoldsLocked session runtime (tt, (IsFair-none, (IsFair-git, tt))) holds

synced : IsSynced runtime
unfolding is_advertised
synced t = refl

run_commands-IsSynced_example : IsSynced (run_commands session runtime)
run_commands-IsSynced_example = run_commands-IsSynced session runtime synced

read-IsCoreTool : IsCoreTool runtime (ascii "read")
unfolding contains str_eq
read-IsCoreTool = record { locked = refl; given = refl; not_core = refl; not_brought = refl }

deactivate_pack-loses_example :
    (run_command (deactivates [] (ascii "read")) runtime ≡ runtime)
    × (is_advertised
          (run_commands
            (activates (ascii "core") ∷ [])
            (run_command (deactivates (ascii "read") []) runtime)).registry
          (ascii "read")
        ≡ false)
deactivate_pack-loses_example =
    deactivate_pack-loses runtime [] (ascii "read") (activates (ascii "core") ∷ []) read-IsCoreTool

abbrev shell_request : Json
shell_request = request (field (ascii "command") (str (ascii "ls")) end)

abbrev listing : Launch
listing = record {
  program = ascii "/bin/sh";
  args = ascii "-c" ∷ ascii "ls" ∷ [];
  timeout = 30;
  cwd = root ++ ascii "." ∷ [];
  request_id = [];
}

planned : shell_plan no_real disk jail shell_request ≡ ok (launch listing)
unfolding shell_plan shell_in shell_at resolve admit_path canonical_path contains_path inside
    lexically_relative relative_from relative_rest rest_by up_from beneath to_path elements climb
    str_eq text_or payload find_field int_or clamp_int
planned = refl

shell_plan-IsShell_example : IsShell jail listing
shell_plan-IsShell_example =
    shell_plan-IsShell no_real disk jail shell_request listing jailed planned

abbrev diff_request : Json
diff_request = request (field (ascii "action") (str (ascii "diff")) end)

abbrev diff_run : Launch
diff_run = git_run (disk.text root) (ascii "diff" ∷ ascii "--stat" ∷ []) 20

diff_planned : git_plan no_real disk jail diff_request ≡ ok (launch diff_run)
unfolding git_plan git_action git_diff_args git_diff str_eq text_or bool_or payload find_field
diff_planned = refl

git_plan-IsReading_example : IsReading (disk.text root) diff_run
git_plan-IsReading_example = git_plan-IsReading no_real disk jail diff_request diff_run diff_planned
