-- ===== src/ToolProfile/Names.antt =====
-- Names of profiles are read without regard to case.
use tool_smith.Base.{
  ℕ, ◌≡◌, ◌≢◌, refl, [], ◌∷◌, arith, Bytes, Bool-cases, inl, inr, is_empty, contains, str_eq, ascii,
}
use tool_smith.ToolProfile.{to_lower, lower, normalize, profiles}

to_lower_idem : (c : ℕ) → to_lower (to_lower c) ≡ to_lower c
to_lower_idem c = ground arith

lower_idem : (s : Bytes) → lower (lower s) ≡ lower s
unfolding lower
lower_idem [] = refl
lower_idem (c ∷ s) = cc (to_lower_idem c, lower_idem s)

auto_kept : normalize (ascii "auto") ≡ ascii "auto"
unfolding normalize lower contains str_eq
auto_kept = refl

-- The canonical name of a profile is its own canonical name, where there is one.
pub normalize_idem : (raw : Bytes) → normalize raw ≢ [] → normalize (normalize raw) ≡ normalize raw
unfolding normalize
normalize_idem raw h = elim (Bool-cases (is_empty (lower raw))) [
  | inl none_given ↦ rw none_given auto_kept
  | inr given ↦ elim (Bool-cases (contains profiles (lower raw))) [
    | inl known ↦ rw (given, known, lower_idem raw, given, known) refl
    | inr unknown ↦ absurd (h (rw (given, unknown) refl))
  ]
]
