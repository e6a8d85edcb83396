-- ===== src/CoreTools/Packs/Lost.antt =====
-- Tools that are gone for good.
use tool_smith.Base.{
  ◌≡◌, refl, sym, ◌∙◌, ap, subst, true, false, List, [], ◌∷◌, ◌++◌, Bool-cases, inl, inr, Bytes,
  ascii, is_empty, str_eq, str_eq_sound, str_eq_refl, contains, remove, contains-remove,
}
use tool_smith.Registry.{set_advertised, is_advertised}
use tool_smith.CoreTools.Packs.{
  CoreRuntime, sync_advertised, with_advertised, said, refuse, deactivate_tool, deactivate_pack,
  deactivate_given,
}
use tool_smith.CoreTools.Packs.Locks.{
  Effect, unchanged, advertises, pack_tools, IsGrown, IsParting, activate_pack-Effect,
  deactivate_given-Effect, Command, activates, deactivates, run_command, run_commands,
}

-- A locked tool that no pack brings, and that is not named core.
pub record IsCoreTool (rt : CoreRuntime) (t : Bytes) : Type 0 where
  pub locked : contains rt.locked t ≡ true
  pub given : is_empty t ≡ false
  pub not_core : str_eq t (ascii "core") ≡ false
  pub not_brought : contains pack_tools t ≡ false

-- Neither the runtime nor the registry shows it.
record IsGone (t : Bytes) (rt : CoreRuntime) : Type 0 where
  unlisted : contains rt.advertised t ≡ false
  hidden : is_advertised rt.registry t ≡ false

Effect-IsGone :
    (t : Bytes) (rt next : CoreRuntime) (P : List Bytes → Type 0)
    → ((names : List Bytes) → P names → contains rt.advertised t ≡ false → contains names t ≡ false)
    → Effect rt P next
    → IsGone t rt
    → IsGone t next
unfolding sync_advertised set_advertised is_advertised
Effect-IsGone t rt next P k unchanged v = v
Effect-IsGone t rt next P k (advertises names p) v = record {
  unlisted = k names p v.unlisted;
  hidden = k names p v.unlisted;
}

run_command-IsGone :
    (t : Bytes) (c : Command) (rt : CoreRuntime)
    → contains pack_tools t ≡ false
    → IsGone t rt
    → IsGone t (run_command c rt)
run_command-IsGone t (activates pack) rt other =
    Effect-IsGone t rt _ (IsGrown rt) (λ names grown a. (grown t).1 other a)
      (activate_pack-Effect pack rt)
run_command-IsGone t (deactivates pack tool) rt other =
    Effect-IsGone t rt _ (IsParting rt pack) (λ names parting a. parting.1 t a)
      (deactivate_given-Effect pack tool rt)

run_commands-IsGone :
    (t : Bytes) (cs : List Command) (rt : CoreRuntime)
    → contains pack_tools t ≡ false
    → IsGone t rt
    → IsGone t (run_commands cs rt)
run_commands-IsGone t [] rt other v = v
run_commands-IsGone t (c ∷ cs) rt other v =
    run_commands-IsGone t cs (run_command c rt) other (run_command-IsGone t c rt other v)

-- A name that no pack brings is not the name of a tool that one brings.
not_named :
    (t k : Bytes)
    → contains pack_tools t ≡ false
    → contains pack_tools k ≡ true
    → str_eq t k ≡ false
not_named t k other brought = elim (Bool-cases (str_eq t k)) [
  | inl same ↦
      let wrong : contains pack_tools k ≡ false = rw (sym (str_eq_sound t k same)) other in
      absurd cc
  | inr apart ↦ apart
]

deactivate_pack-other :
    (rt : CoreRuntime) (t : Bytes)
    → IsCoreTool rt t
    → deactivate_pack t rt
      ≡ said (ascii "Deactivated pack " ++ t) (with_advertised rt (remove t rt.advertised))
unfolding deactivate_pack contains str_eq
deactivate_pack-other rt t v =
    let skills = not_named t (ascii "skills") v.not_brought refl in
    let git = not_named t (ascii "git") v.not_brought refl in
    rw (v.given, v.not_core, skills, git) refl

with_advertised-IsGone :
    (rt : CoreRuntime) (t : Bytes) (names : List Bytes)
    → contains names t ≡ false
    → IsGone t (with_advertised rt names)
unfolding sync_advertised set_advertised is_advertised
with_advertised-IsGone rt t names gone = record { unlisted = gone; hidden = gone }

drop-IsGone :
    (rt : CoreRuntime) (t : Bytes) → IsCoreTool rt t → IsGone t (run_command (deactivates t []) rt)
unfolding deactivate_given
drop-IsGone rt t v =
    subst (λ r. IsGone t r.1) (sym (deactivate_pack-other rt t v))
      (with_advertised-IsGone rt t (remove t rt.advertised)
        (contains-remove t t rt.advertised ∙ rw (str_eq_refl t) refl))

deactivate_tool-locked :
    (rt : CoreRuntime) (t : Bytes)
    → contains rt.locked t ≡ true
    → deactivate_tool t rt ≡ refuse (ascii "Cannot deactivate core tool: " ++ t) rt
unfolding deactivate_tool
deactivate_tool-locked rt t h = rw h refl

keep_tool :
    (rt : CoreRuntime) (pack t : Bytes) → IsCoreTool rt t → run_command (deactivates pack t) rt ≡ rt
unfolding deactivate_given
keep_tool rt pack [] v = let wrong : true ≡ false = v.given in absurd cc
keep_tool rt pack (c ∷ t) v = ap (λ r. r.1) (deactivate_tool-locked rt (c ∷ t) v.locked)

-- A locked tool other than git, skills, skill, llm and remote, with a name other than core and the
-- empty one, cannot be deactivated as a tool: the runtime stays as it is. But the deactivation of a
-- pack of its name hides it in the registry, and no history of activations and deactivations after
-- that shows it again.
pub deactivate_pack-loses :
    (rt : CoreRuntime) (pack t : Bytes) (cs : List Command)
    → IsCoreTool rt t
    → (run_command (deactivates pack t) rt ≡ rt)
      × (is_advertised (run_commands cs (run_command (deactivates t []) rt)).registry t ≡ false)
deactivate_pack-loses rt pack t cs v = (
  keep_tool rt pack t v,
  (run_commands-IsGone t cs (run_command (deactivates t []) rt) v.not_brought
      (drop-IsGone rt t v)).hidden,
)
