-- ===== src/CoreTools/Packs/Locks.antt =====
-- Which tools stay advertised while packs come and go.
use tool_smith.Base.{
  ◌≡◌, refl, sym, ◌∙◌, subst, Bool, true, false, not, ◌&&◌, List, [], ◌∷◌, arith, Bool-cases, inl,
  inr, Bytes, ascii, is_empty, str_eq, str_eq_sound, contains, add, remove, contains-add,
  contains-remove, All, if◌then◌else◌,
}
use tool_smith.ToolProfile.{is_optional_pack}
use tool_smith.CoreTools.Packs.{
  CoreRuntime, sync_advertised, with_advertised, Reply, activate_pack, deactivate_tool,
  deactivate_pack, deactivate_given,
}

-- What a command may do to the runtime: nothing, or advertise other names, of which `P` holds.
pub data Effect (rt : CoreRuntime) (P : List Bytes → Type 0) : CoreRuntime → Type 0 where
  unchanged : Effect rt P rt
  advertises : (names : List Bytes) → P names → Effect rt P (with_advertised rt names)

if_cases {ℓ κ} :
    {A : Type ℓ} (P : A → Type κ) (b : Bool) (x y : A)
    → (b ≡ true → P x)
    → (b ≡ false → P y)
    → P (if b then x else y)
if_cases P true x y t f = t refl
if_cases P false x y t f = f refl

-- The names that are left hold every locked tool that was there.
abbrev pub KeepsLocked : CoreRuntime → List Bytes → Type 0
KeepsLocked rt names =
    (t : Bytes)
    → contains rt.locked t ≡ true
    → contains rt.advertised t ≡ true
    → contains names t ≡ true

KeepsLocked-remove :
    (rt : CoreRuntime) (k : Bytes) (names : List Bytes)
    → contains rt.locked k ≡ false
    → KeepsLocked rt names
    → KeepsLocked rt (remove k names)
KeepsLocked-remove rt k names free h t l a = elim (Bool-cases (str_eq k t)) [
  | inl same ↦
      let here : contains rt.locked k ≡ true = rw (str_eq_sound k t same) l in absurd (ground arith)
  | inr other ↦ contains-remove k t names ∙ rw other (h t l a)
]

-- The tools that a pack brings.
abbrev pub pack_tools : List Bytes
pack_tools = ascii "skill" ∷ ascii "skills" ∷ ascii "llm" ∷ ascii "remote" ∷ ascii "git" ∷ []

-- What was advertised is among the names, and so may be tools that a pack brings, but nothing else.
abbrev pub IsGrown : CoreRuntime → List Bytes → Type 0
IsGrown rt names =
    (t : Bytes)
    → (contains rt.advertised t ≡ true → contains names t ≡ true)
      × (contains pack_tools t ≡ false
          → contains rt.advertised t ≡ false
          → contains names t ≡ false)

IsGrown-add :
    (rt : CoreRuntime) (k : Bytes) (names : List Bytes)
    → contains pack_tools k ≡ true
    → IsGrown rt names
    → IsGrown rt (add k names)
IsGrown-add rt k names brought h t = (
  λ a. ground (arith, contains-add k t names, (h t).0 a),
  λ other a. elim (Bool-cases (str_eq k t)) [
    | inl same ↦ let wrong : contains pack_tools k ≡ false = rw (str_eq_sound k t same) other in cc
    | inr apart ↦ contains-add k t names ∙ rw (apart, (h t).1 other a) refl
  ],
)

abbrev Grows : CoreRuntime → Reply → Type 0
Grows rt reply = Effect rt (IsGrown rt) reply.1

one_more :
    (rt : CoreRuntime) (k : Bytes)
    → contains pack_tools k ≡ true
    → Effect rt (IsGrown rt) (with_advertised rt (add k rt.advertised))
one_more rt k brought =
    advertises (add k rt.advertised)
      (IsGrown-add rt k rt.advertised brought (λ t. (λ a. a, λ other a. a)))

pub activate_pack-Effect :
    (pack : Bytes) (rt : CoreRuntime) → Effect rt (IsGrown rt) (activate_pack pack rt).1
unfolding activate_pack contains str_eq
activate_pack-Effect pack rt =
    if_cases (Grows rt) (is_empty pack) _ _ (λ _. unchanged)
      (λ _.
        if_cases (Grows rt) (str_eq pack (ascii "skills")) _ _
          (λ _. advertises _ (
            IsGrown-add rt (ascii "skill") _ refl
              (IsGrown-add rt (ascii "skills") rt.advertised refl (λ t. (λ a. a, λ other a. a)))))
          (λ _.
            if_cases (Grows rt) (str_eq pack (ascii "llm")) _ _
              (λ _. one_more rt (ascii "llm") refl)
              (λ _.
                if_cases (Grows rt) (str_eq pack (ascii "remote")) _ _
                  (λ _. one_more rt (ascii "remote") refl)
                  (λ _.
                    if_cases (Grows rt) (str_eq pack (ascii "git")) _ _
                      (λ _. one_more rt (ascii "git") refl)
                      (λ _.
                        if_cases (Grows rt) (str_eq pack (ascii "core")) _ _ (λ _. unchanged)
                          (λ _.
                            if_cases (Grows rt) (is_optional_pack pack) _ _ (λ _. unchanged)
                              (λ _. unchanged)))))))

-- A pack's name that is no locked tool's, unless it is git's; nor are the tools of the pack skills locked.
pub record IsFair (locked : List Bytes) (pack : Bytes) : Type 0 where
  pub name : contains locked pack ≡ true → str_eq pack (ascii "git") ≡ true
  pub skills : contains locked (ascii "skills") ≡ false
  pub skill : contains locked (ascii "skill") ≡ false

not_locked :
    (rt : CoreRuntime) (pack : Bytes)
    → IsFair rt.locked pack
    → (str_eq pack (ascii "git") && contains rt.locked (ascii "git")) ≡ false
    → contains rt.locked pack ≡ false
not_locked rt pack fair loose = elim (Bool-cases (contains rt.locked pack)) [
  | inr free ↦ free
  | inl locked ↦
      let git = fair.name locked in
      let here : contains rt.locked (ascii "git") ≡ true =
        rw (sym (str_eq_sound pack (ascii "git") git)) locked in
      absurd (ground (arith, git, here))
]

-- If the pack is fair, the locked tools stay.
abbrev pub KeepsIfFair : CoreRuntime → Bytes → List Bytes → Type 0
KeepsIfFair rt pack names = IsFair rt.locked pack → KeepsLocked rt names

-- Nothing is advertised that was not.
abbrev pub IsShrunk : CoreRuntime → List Bytes → Type 0
IsShrunk rt names = (t : Bytes) → contains rt.advertised t ≡ false → contains names t ≡ false

abbrev pub IsParting : CoreRuntime → Bytes → List Bytes → Type 0
IsParting rt pack names = KeepsIfFair rt pack names × IsShrunk rt names

IsShrunk-remove :
    (rt : CoreRuntime) (k : Bytes) (names : List Bytes)
    → IsShrunk rt names
    → IsShrunk rt (remove k names)
IsShrunk-remove rt k names h t a = ground (arith, contains-remove k t names, h t a)

abbrev MildIfFair : CoreRuntime → Bytes → Reply → Type 0
MildIfFair rt pack reply = Effect rt (IsParting rt pack) reply.1

deactivate_tool-Effect :
    (pack tool : Bytes) (rt : CoreRuntime)
    → Effect rt (IsParting rt pack) (deactivate_tool tool rt).1
unfolding deactivate_tool
deactivate_tool-Effect pack tool rt =
    if_cases (MildIfFair rt pack) (contains rt.locked tool) _ _ (λ _. unchanged)
      (λ free.
        if_cases (MildIfFair rt pack) (not (contains rt.advertised tool)) _ _ (λ _. unchanged)
          (λ _. advertises _ (
            λ fair. KeepsLocked-remove rt tool rt.advertised free (λ t l a. a),
            IsShrunk-remove rt tool rt.advertised (λ t a. a),
          )))

deactivate_pack-Effect :
    (pack : Bytes) (rt : CoreRuntime) → Effect rt (IsParting rt pack) (deactivate_pack pack rt).1
unfolding deactivate_pack
deactivate_pack-Effect pack rt =
    if_cases (MildIfFair rt pack) (is_empty pack) _ _ (λ _. unchanged)
      (λ _.
        if_cases (MildIfFair rt pack) (str_eq pack (ascii "core")) _ _ (λ _. unchanged)
          (λ _.
            if_cases (MildIfFair rt pack) (str_eq pack (ascii "skills")) _ _
              (λ _. advertises _ (
                λ fair.
                    KeepsLocked-remove rt (ascii "skill") _ fair.skill (
                      KeepsLocked-remove rt (ascii "skills") rt.advertised fair.skills
                        (λ t l a. a)),
                IsShrunk-remove rt (ascii "skill") _
                    (IsShrunk-remove rt (ascii "skills") rt.advertised (λ t a. a)),
              ))
              (λ _.
                if_cases (MildIfFair rt pack)
                  (str_eq pack (ascii "git") && contains rt.locked (ascii "git")) _ _
                  (λ _. unchanged)
                  (λ loose. advertises _ (
                    λ fair.
                        KeepsLocked-remove rt pack rt.advertised (not_locked rt pack fair loose)
                          (λ t l a. a),
                    IsShrunk-remove rt pack rt.advertised (λ t a. a),
                  )))))

pub deactivate_given-Effect :
    (pack tool : Bytes) (rt : CoreRuntime)
    → Effect rt (IsParting rt pack) (deactivate_given pack tool rt).1
unfolding deactivate_given
deactivate_given-Effect pack tool rt =
    if_cases (MildIfFair rt pack) (is_empty tool) _ _ (λ _. deactivate_pack-Effect pack rt)
      (λ _. deactivate_tool-Effect pack tool rt)

-- A history of calls of the two commands, with their arguments.
pub data Command : Type 0 where
  activates : Bytes → Command
  deactivates : Bytes → Bytes → Command

abbrev pub run_command : Command → CoreRuntime → CoreRuntime
run_command (activates pack) rt = (activate_pack pack rt).1
run_command (deactivates pack tool) rt = (deactivate_given pack tool rt).1

abbrev pub run_commands : List Command → CoreRuntime → CoreRuntime
run_commands [] rt = rt
run_commands (c ∷ cs) rt = run_commands cs (run_command c rt)

-- A pack that is deactivated is named fairly.
abbrev pub IsFairCommand : List Bytes → Command → Type 0
IsFairCommand locked (activates pack) = Unit
IsFairCommand locked (deactivates pack tool) = IsFair locked pack

-- Every locked tool is advertised.
abbrev pub HoldsLocked : CoreRuntime → Type 0
HoldsLocked rt = (t : Bytes) → contains rt.locked t ≡ true → contains rt.advertised t ≡ true

-- The locks stay, and with them the locked tools.
abbrev Steady : CoreRuntime → CoreRuntime → Type 0
Steady rt next = (next.locked ≡ rt.locked) × (HoldsLocked rt → HoldsLocked next)

Effect-Steady :
    (rt next : CoreRuntime) (P : List Bytes → Type 0)
    → ((names : List Bytes) → P names → KeepsLocked rt names)
    → Effect rt P next
    → Steady rt next
unfolding sync_advertised
Effect-Steady rt next P k unchanged = (refl, λ h. h)
Effect-Steady rt next P k (advertises names p) = (refl, λ h t l. k names p t l (h t l))

run_command-Steady :
    (c : Command) (rt : CoreRuntime) → IsFairCommand rt.locked c → Steady rt (run_command c rt)
run_command-Steady (activates pack) rt fair =
    Effect-Steady rt _ (IsGrown rt) (λ names k t l. (k t).0) (activate_pack-Effect pack rt)
run_command-Steady (deactivates pack tool) rt fair =
    Effect-Steady rt _ (IsParting rt pack) (λ names k. k.0 fair)
      (deactivate_given-Effect pack tool rt)

-- If every locked tool is advertised, it stays so through any history of activations and
-- deactivations in which each deactivated pack is git or is named like no locked tool, while the
-- tools skills and skill are not locked.
pub run_commands-HoldsLocked :
    (cs : List Command) (rt : CoreRuntime)
    → All (IsFairCommand rt.locked) cs
    → HoldsLocked rt
    → HoldsLocked (run_commands cs rt)
run_commands-HoldsLocked [] rt fair h = h
run_commands-HoldsLocked (c ∷ cs) rt (f, fair) h =
    let (locks, holds) = run_command-Steady c rt f in
    run_commands-HoldsLocked cs (run_command c rt)
      (subst (λ l. All (IsFairCommand l) cs) (sym locks) fair) (holds h)
