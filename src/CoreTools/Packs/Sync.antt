-- ===== src/CoreTools/Packs/Sync.antt =====
-- The registry follows the runtime.
use tool_smith.Base.{◌≡◌, refl, List, [], ◌∷◌, Bytes, contains}
use tool_smith.Registry.{set_advertised, is_advertised}
use tool_smith.CoreTools.Packs.{CoreRuntime, sync_advertised, with_advertised}
use tool_smith.CoreTools.Packs.Locks.{
  Effect, unchanged, advertises, IsGrown, IsParting, activate_pack-Effect, deactivate_given-Effect,
  Command, activates, deactivates, run_command, run_commands,
}

-- The registry shows a tool exactly when the runtime advertises it.
abbrev pub IsSynced : CoreRuntime → Type 0
IsSynced rt = (t : Bytes) → is_advertised rt.registry t ≡ contains rt.advertised t

advertised-IsSynced : (rt : CoreRuntime) (names : List Bytes) → IsSynced (with_advertised rt names)
unfolding sync_advertised set_advertised is_advertised
advertised-IsSynced rt names t = refl

Effect-IsSynced :
    (rt next : CoreRuntime) (P : List Bytes → Type 0)
    → Effect rt P next
    → IsSynced rt
    → IsSynced next
Effect-IsSynced rt next P unchanged h = h
Effect-IsSynced rt next P (advertises names p) h = advertised-IsSynced rt names

run_command-IsSynced : (c : Command) (rt : CoreRuntime) → IsSynced rt → IsSynced (run_command c rt)
run_command-IsSynced (activates pack) rt =
    Effect-IsSynced rt _ (IsGrown rt) (activate_pack-Effect pack rt)
run_command-IsSynced (deactivates pack tool) rt =
    Effect-IsSynced rt _ (IsParting rt pack) (deactivate_given-Effect pack tool rt)

-- If the registry shows exactly the tools that the runtime advertises, it does so after any history
-- of activations and deactivations.
pub run_commands-IsSynced :
    (cs : List Command) (rt : CoreRuntime) → IsSynced rt → IsSynced (run_commands cs rt)
run_commands-IsSynced [] rt h = h
run_commands-IsSynced (c ∷ cs) rt h =
    run_commands-IsSynced cs (run_command c rt) (run_command-IsSynced c rt h)
