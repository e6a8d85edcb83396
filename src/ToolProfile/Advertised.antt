-- ===== src/ToolProfile/Advertised.antt =====
-- Which tools are advertised.
use tool_smith.Base.{
  ◌≡◌, refl, ◌∙◌, false, ◌||◌, List, [], ◌∷◌, arith, Bytes, Bool-cases, inl, inr, is_empty,
  contains, add, remove, contains-add, contains-remove, if◌then◌else◌, str_eq, ascii,
}
use tool_smith.ToolProfile.{
  Workspace, ResolveInput, add_all, remove_all, tools_for_profile, enable_packs, disable_packs,
  may_pin, pin_to, pin_all, choose, profile_of, resolve_for, resolve,
}

pub contains-add_all :
    (ts tools : List Bytes) (t : Bytes)
    → contains (add_all ts tools) t ≡ (contains ts t || contains tools t)
unfolding add_all contains
contains-add_all [] tools t = refl
contains-add_all (u ∷ ts) tools t =
    ground (arith, contains-add_all ts (add u tools) t, contains-add u t tools)

pub contains-remove_all :
    (ts tools : List Bytes) (t : Bytes)
    → contains (remove_all ts tools) t ≡ (if contains ts t then false else contains tools t)
unfolding remove_all contains
contains-remove_all [] tools t = refl
contains-remove_all (u ∷ ts) tools t =
    ground (arith, contains-remove_all ts (remove u tools) t, contains-remove u t tools)

contains-pin_to :
    (tools ts pin : List Bytes) (t : Bytes)
    → (pin_to tools ts pin).1 ≡ []
    → contains (pin_to tools ts pin).0 t ≡ (contains ts t || contains pin t)
unfolding pin_to contains
contains-pin_to tools [] pin t h = refl
contains-pin_to tools (u ∷ ts) pin t h = elim (Bool-cases (is_empty u)) [
  | inl nameless ↦ let wrong = rw nameless at h in cc
  | inr named ↦ elim (Bool-cases (may_pin tools u)) [
    | inr unknown ↦ let wrong = rw (named, unknown) at h in cc
    | inl known ↦
        rw (named, known)
          (ground (
            arith,
            contains-add u t pin,
            contains-pin_to tools ts (add u pin) t (rw (named, known) at h),
          ))
  ]
]

contains-pin_all :
    (ts pin : List Bytes) (t : Bytes)
    → (pin_all ts pin).1 ≡ []
    → contains (pin_all ts pin).0 t ≡ (contains ts t || contains pin t)
unfolding pin_all contains
contains-pin_all [] pin t h = refl
contains-pin_all (u ∷ ts) pin t h = elim (Bool-cases (is_empty u)) [
  | inl nameless ↦ let wrong = rw nameless at h in cc
  | inr named ↦
      rw named
        (ground (arith, contains-add u t pin, contains-pin_all ts (add u pin) t (rw named at h)))
]

contains-nil : (t : Bytes) → contains [] t ≡ false
unfolding contains
contains-nil t = refl

choose-pins :
    (input : ResolveInput) (base : List Bytes) (t : Bytes)
    → is_empty input.pin_tools ≡ false
    → (choose input base).1 ≡ []
    → contains (choose input base).0 t ≡ contains input.pin_tools t
unfolding choose
choose-pins input base t pinned h =
    elim (Bool-cases (is_empty (enable_packs input.enable base).1)) [
      | inr failed ↦
          let same : (enable_packs input.enable base).1 ≡ [] = rw failed at h in
          let wrong = rw same at failed in cc
      | inl fine ↦
          let left = disable_packs input.disable (enable_packs input.enable base).0 in
          let passed : (pin_to left input.pin_tools []).1 ≡ [] = rw (fine, pinned) at h in
          rw (fine, pinned)
            (contains-pin_to left input.pin_tools [] t passed ∙ ground (arith, contains-nil t))
    ]

resolve_for-pins :
    (input : ResolveInput) (profile t : Bytes)
    → is_empty input.pin_tools ≡ false
    → (resolve_for input profile).error ≡ []
    → contains (resolve_for input profile).advertised t ≡ contains input.pin_tools t
unfolding resolve_for
resolve_for-pins input profile t pinned h = elim (Bool-cases (is_empty profile)) [
  | inl unknown ↦ let wrong = rw unknown at h in cc
  | inr known ↦ elim (Bool-cases (str_eq profile (ascii "all"))) [
    | inl every ↦
        rw (known, every)
          (contains-pin_all input.pin_tools [] t (rw (known, every) at h)
            ∙ ground (arith, contains-nil t))
    | inr some_tools ↦
        rw (known, some_tools)
          (choose-pins input (tools_for_profile profile) t pinned (rw (known, some_tools) at h))
  ]
]

-- With pins, and no error, exactly the pinned tools are advertised, whatever the profile and the
-- packs.
pub resolve-pins :
    (look : Bytes → Workspace) (input : ResolveInput) (t : Bytes)
    → is_empty input.pin_tools ≡ false
    → (resolve look input).error ≡ []
    → contains (resolve look input).advertised t ≡ contains input.pin_tools t
unfolding resolve
resolve-pins look input t pinned h = resolve_for-pins input (profile_of look input) t pinned h
