-- ===== src/Jail/Confined.antt =====
-- What `WorkspaceJail::Resolve` lets through.
use mathlib.Core.Bool.{◌&&◌}
use tool_smith.Base.{
  ℕ, ◌≡◌, ◌↔◌, refl, sym, ◌∙◌, ap, true, false, not, Bool, List, [], ◌∷◌, ◌++◌, Bytes, Bool-cases,
  inl, inr, ◌⊎◌, is_empty, any, ascii, All, arith,
}
use tool_smith.Base.FilePath.{FilePath}
use tool_smith.Jail.{
  Disk, WorkspaceJail, ResolveResult, is_dot_dot, inside, contains_path, admit_path, canonical_path,
  resolve,
}
use tool_smith.Jail.Inside.{climbs_or, IsCanonical, Below, inside-Below, Below-inside}

-- The root and the allowed directories are canonical.
pub record IsJailed (jail : WorkspaceJail) : Type 0 where
  pub root : IsCanonical jail.root
  pub allow : All IsCanonical jail.allow

-- The path continues one of the directories.
abbrev BelowOne : List FilePath → FilePath → Type 0
BelowOne [] p = ⊥
BelowOne (a ∷ allow) p = Below a p ⊎ BelowOne allow p

abbrev pub IsConfined : WorkspaceJail → FilePath → Type 0
IsConfined jail p = Below jail.root p ⊎ BelowOne jail.allow p

any-BelowOne :
    (allow : List FilePath) (p : FilePath)
    → All IsCanonical allow
    → any (λ a. inside a p) allow ≡ true
    → BelowOne allow p
any-BelowOne [] p h e = grind arith
any-BelowOne (a ∷ allow) p (v, h) e = elim (Bool-cases (inside a p)) [
  | inl here ↦ inl (inside-Below a p v here)
  | inr other ↦ inr (any-BelowOne allow p h (sym (rw other refl) ∙ e))
]

BelowOne-any :
    (allow : List FilePath) (p : FilePath)
    → All IsCanonical allow
    → IsCanonical p
    → BelowOne allow p
    → any (λ a. inside a p) allow ≡ true
BelowOne-any [] p h c b = absurd b
BelowOne-any (a ∷ allow) p (v, h) c (inl b) = rw (Below-inside a p v c b) refl
BelowOne-any (a ∷ allow) p (v, h) c (inr b) =
    let rest = BelowOne-any allow p h c b in
    elim (Bool-cases (inside a p)) [ inl here ↦ rw here refl | inr other ↦ rw other rest ]

contains_path-IsConfined :
    (jail : WorkspaceJail) (p : FilePath)
    → IsJailed jail
    → contains_path jail p ≡ true
    → IsConfined jail p
unfolding contains_path
contains_path-IsConfined jail p h e = elim (Bool-cases (inside jail.root p)) [
  | inl here ↦ inl (inside-Below jail.root p h.root here)
  | inr other ↦ inr (any-BelowOne jail.allow p h.allow (sym (rw other refl) ∙ e))
]

IsConfined-contains_path :
    (jail : WorkspaceJail) (p : FilePath)
    → IsJailed jail
    → IsCanonical p
    → IsConfined jail p
    → contains_path jail p ≡ true
unfolding contains_path
IsConfined-contains_path jail p h c (inl b) = rw (Below-inside jail.root p h.root c b) refl
IsConfined-contains_path jail p h c (inr b) =
    let one = BelowOne-any jail.allow p h.allow c b in
    elim (Bool-cases (inside jail.root p)) [ inl here ↦ rw here refl | inr other ↦ rw other one ]

-- The error texts are not empty, so a result without an error comes from the last branch.
no_error : {A : Type 0} {s t : Bytes} {c : ℕ} → s ≡ c ∷ t → s ≡ [] → A
no_error e h = absurd cc

-- What holds of the canonical path when it is let through.
pub record IsAdmitted (jail : WorkspaceJail) (canon : FilePath) (for_write : Bool)
    (r : ResolveResult) : Type 0 where
  pub path : r.path ≡ canon
  pub flag : r.outside_workspace ≡ not (contains_path jail canon)
  pub dots : any is_dot_dot r.path ≡ false
  pub write : for_write ≡ true → r.outside_workspace ≡ false

admit_path-dots :
    (disk : Disk) (jail : WorkspaceJail) (user : Bytes) (canon : FilePath) (for_write : Bool)
    → any is_dot_dot canon ≡ true
    → (admit_path disk jail user canon for_write).error
      ≡ ascii "Path traversal is not allowed: " ++ user
unfolding admit_path
admit_path-dots disk jail user canon for_write h = rw h refl

admit_path-outside :
    (disk : Disk) (jail : WorkspaceJail) (user : Bytes) (canon : FilePath) (for_write : Bool)
    → any is_dot_dot canon ≡ false
    → (for_write && not (contains_path jail canon)) ≡ true
    → (admit_path disk jail user canon for_write).error
      ≡ ascii "Write path is outside the workspace jail: " ++ disk.text canon
unfolding admit_path
admit_path-outside disk jail user canon for_write d h = rw (d, h) refl

resolve-missing :
    (disk : Disk) (jail : WorkspaceJail) (user : Bytes) (for_write : Bool)
    → is_empty user ≡ true
    → (resolve disk jail user for_write).error ≡ ascii "Missing required argument: path"
unfolding resolve
resolve-missing disk jail user for_write h = rw h refl

resolve-given :
    (disk : Disk) (jail : WorkspaceJail) (user : Bytes) (for_write : Bool)
    → is_empty user ≡ false
    → resolve disk jail user for_write
      ≡ admit_path disk jail user (canonical_path disk jail user) for_write
unfolding resolve
resolve-given disk jail user for_write h = rw h refl

abbrev error_of : ResolveResult → Bytes
error_of r = r.error

admit_path_ok :
    (disk : Disk) (jail : WorkspaceJail) (user : Bytes) (canon : FilePath) (for_write : Bool)
    → (admit_path disk jail user canon for_write).error ≡ []
    → IsAdmitted jail canon for_write (admit_path disk jail user canon for_write)
unfolding admit_path
admit_path_ok disk jail user canon for_write e = elim (Bool-cases (any is_dot_dot canon)) [
  | inl dots ↦ no_error (admit_path-dots disk jail user canon for_write dots) e
  | inr none ↦ elim (Bool-cases (for_write && not (contains_path jail canon))) [
    | inl refused ↦ no_error (admit_path-outside disk jail user canon for_write none refused) e
    | inr free ↦ record {
      path = rw (none, free) refl;
      flag = rw (none, free) refl;
      dots = rw (none, free) none;
      write = λ w.
          rw (none, free)
            (elim (Bool-cases (contains_path jail canon)) [
              | inl c ↦ rw c refl
              | inr c ↦ climbs_or free (rw (w, c) refl)
            ]);
    }
  ]
]

pub resolve_ok :
    (disk : Disk) (jail : WorkspaceJail) (user : Bytes) (for_write : Bool)
    → (resolve disk jail user for_write).error ≡ []
    → IsAdmitted jail (canonical_path disk jail user) for_write (resolve disk jail user for_write)
resolve_ok disk jail user for_write e = elim (Bool-cases (is_empty user)) [
  | inl missing ↦ no_error (resolve-missing disk jail user for_write missing) e
  | inr given ↦
      let same = resolve-given disk jail user for_write given in
      let no_err = sym (ap error_of same) ∙ e in
      rw same (admit_path_ok disk jail user (canonical_path disk jail user) for_write no_err)
]

not-false : (b : Bool) → not b ≡ false → b ≡ true
not-false true h = refl
not-false false h = sym h

-- a path that is not flagged
pub resolve-IsConfined :
    (disk : Disk) (jail : WorkspaceJail) (user : Bytes) (for_write : Bool)
    → IsJailed jail
    → (resolve disk jail user for_write).error ≡ []
    → (resolve disk jail user for_write).outside_workspace ≡ false
    → IsConfined jail (resolve disk jail user for_write).path
resolve-IsConfined disk jail user for_write h e flag =
    let r = resolve_ok disk jail user for_write e in
    rw r.path (
      contains_path-IsConfined jail (canonical_path disk jail user) h
        (not-false (contains_path jail (canonical_path disk jail user)) (sym r.flag ∙ flag)))

-- In a jail whose directories are canonical, a path that is resolved for writing without an error
-- lies below the root or an allowed directory, and has no element "..", whatever the file system
-- answers.
pub resolve-write :
    (disk : Disk) (jail : WorkspaceJail) (user : Bytes)
    → IsJailed jail
    → (resolve disk jail user true).error ≡ []
    → IsConfined jail (resolve disk jail user true).path
      × (any is_dot_dot (resolve disk jail user true).path ≡ false)
resolve-write disk jail user h e =
    let r = resolve_ok disk jail user true e in
    (resolve-IsConfined disk jail user true h e (r.write refl), r.dots)

-- flag is exact
pub resolve-flag :
    (disk : Disk) (jail : WorkspaceJail) (user : Bytes)
    → IsJailed jail
    → (resolve disk jail user false).error ≡ []
    → IsCanonical (resolve disk jail user false).path
    → ((resolve disk jail user false).outside_workspace ≡ false)
      ↔ IsConfined jail (resolve disk jail user false).path
resolve-flag disk jail user h e c =
    let r = resolve_ok disk jail user false e in
    (
      resolve-IsConfined disk jail user false h e,
      λ b.
          r.flag
          ∙ ap not (
              ap (contains_path jail) (sym r.path)
              ∙ IsConfined-contains_path jail (resolve disk jail user false).path h c b),
    )
