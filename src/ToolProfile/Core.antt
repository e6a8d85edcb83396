-- ===== src/ToolProfile/Core.antt =====
-- The core tools cannot be lost by switching packs.
use tool_smith.Base.{
  ◌≡◌, ◌≢◌, refl, ◌∙◌, true, false, List, [], ◌∷◌, arith, Bytes, Bool-cases, inl, inr, is_empty,
  contains, str_eq, str_eq_sound, All, AllValues, lookup, lookup-AllValues, Option-cases, ascii,
}
use tool_smith.ToolProfile.{
  ResolveInput, core_tools, language_extra, add_all, remove_all, tools_for_profile,
  is_optional_pack, pack_tools, enable_packs, disable_packs, choose, resolve_for,
}
use tool_smith.ToolProfile.Advertised.{contains-add_all, contains-remove_all}

abbrev NotCore : Bytes → Type 0
NotCore t = contains core_tools t ≡ false

-- No pack holds a core tool.
pack_tools-NotCore : AllValues (All NotCore) pack_tools
unfolding contains str_eq
pack_tools-NotCore = ((refl, tt), (tt, ((refl, (refl, tt)), ((refl, tt), ((refl, tt), tt)))))

contains-NotCore :
    (ts : List Bytes) (t : Bytes)
    → All NotCore ts
    → contains core_tools t ≡ true
    → contains ts t ≡ false
unfolding contains
contains-NotCore [] t n c = refl
contains-NotCore (u ∷ ts) t (p, n) c = elim (Bool-cases (str_eq u t)) [
  | inr other ↦ rw other (contains-NotCore ts t n c)
  | inl same ↦
      let p' : contains core_tools t ≡ false = rw (str_eq_sound u t same) at p in cc (p', c)
]

enable_packs-keeps :
    (packs tools : List Bytes) (t : Bytes)
    → contains tools t ≡ true
    → contains (enable_packs packs tools).0 t ≡ true
unfolding enable_packs
enable_packs-keeps [] tools t h = h
enable_packs-keeps (pack ∷ packs) tools t h = elim (Bool-cases (is_empty pack)) [
  | inl nameless ↦ rw nameless h
  | inr named ↦ elim (Option-cases (lookup pack pack_tools)) [
    | inr (ts, found) ↦
        rw (named, found)
          (enable_packs-keeps packs (add_all ts tools) t
            (ground (arith, contains-add_all ts tools t, h)))
    | inl missing ↦ elim (Bool-cases (is_optional_pack pack)) [
      | inl optional ↦ rw (named, missing, optional) (enable_packs-keeps packs tools t h)
      | inr unknown ↦ rw (named, missing, unknown) h
    ]
  ]
]

disable_packs-keeps :
    (packs tools : List Bytes) (t : Bytes)
    → contains core_tools t ≡ true
    → contains tools t ≡ true
    → contains (disable_packs packs tools) t ≡ true
unfolding disable_packs
disable_packs-keeps [] tools t c h = h
disable_packs-keeps (pack ∷ packs) tools t c h = elim (Option-cases (lookup pack pack_tools)) [
  | inl missing ↦ rw missing (disable_packs-keeps packs tools t c h)
  | inr (ts, found) ↦
      let apart =
        contains-NotCore ts t
          (lookup-AllValues (All NotCore) pack pack_tools pack_tools-NotCore found) c in
      rw found (
        disable_packs-keeps packs (remove_all ts tools) t c
          (contains-remove_all ts tools t ∙ rw apart h))
]

choose-core :
    (input : ResolveInput) (base : List Bytes) (t : Bytes)
    → is_empty input.pin_tools ≡ true
    → contains core_tools t ≡ true
    → contains base t ≡ true
    → contains (choose input base).0 t ≡ true
unfolding choose
choose-core input base t free c h =
    let enabled = enable_packs-keeps input.enable base t h in
    elim (Bool-cases (is_empty (enable_packs input.enable base).1)) [
      | inr failed ↦ rw failed enabled
      | inl fine ↦ rw (fine, free) (disable_packs-keeps input.disable _ t c enabled)
    ]

tools_for_profile-core :
    (profile t : Bytes)
    → str_eq profile (ascii "all") ≡ false
    → contains core_tools t ≡ true
    → contains (tools_for_profile profile) t ≡ true
unfolding tools_for_profile
tools_for_profile-core profile t p c = ground (
  arith,
  contains-add_all core_tools [] t,
  contains-add_all language_extra (add_all core_tools []) t,
)

-- Without pins, every core tool is advertised under a known profile other than "all", whatever
-- packs are switched on and off, and whether or not the packs' names are known.
pub resolve_for-core :
    (input : ResolveInput) (profile t : Bytes)
    → is_empty input.pin_tools ≡ true
    → profile ≢ []
    → str_eq profile (ascii "all") ≡ false
    → contains core_tools t ≡ true
    → contains (resolve_for input profile).advertised t ≡ true
unfolding resolve_for
resolve_for-core input profile t free k p c =
    let known : is_empty profile ≡ false = ground arith in
    rw (known, p)
      (choose-core input (tools_for_profile profile) t free c
        (tools_for_profile-core profile t p c))
